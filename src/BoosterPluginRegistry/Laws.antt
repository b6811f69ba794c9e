-- ===== src/BoosterPluginRegistry/Laws.antt =====
-- The entries of src/launcherlib/boosterpluginregistry.cpp after a registration.
use touch_applauncherd.Common.{
  ℕ, ◌≡◌, refl, sym, subst, ◌==◌, if◌then◌else◌, [], ◌∷◌, none, some, codes, arith, ◌⊎◌, inl, inr,
  Option-cases,
}
use touch_applauncherd.Os.{Os}
use touch_applauncherd.BoosterPluginRegistry.{
  Registry, plugin_entry, register_plugin, validate_and_register_plugin,
}

-- No type stands twice.
abbrev pub IsUnique : Registry → Type 0
IsUnique [] = Unit {0}
IsUnique (e ∷ es) = (plugin_entry e.type es ≡ none) × IsUnique es

-- After a registration the type's entry is the new one, and the entries of other types stay.
pub plugin_entry-register_plugin :
    (type other c s p : ℕ) (r : Registry)
    → plugin_entry other (register_plugin type c s p r) ≡ (
        if type == other
        then some (record {
          type = type;
          create_func = c;
          socket_name_func = s;
          temporary_process_name_func = p;
        })
        else plugin_entry other r)
unfolding plugin_entry register_plugin
plugin_entry-register_plugin type other c s p [] = refl
plugin_entry-register_plugin type other c s p (e ∷ es) =
    ground (arith, plugin_entry-register_plugin type other c s p es)

register_plugin-IsUnique :
    (type c s p : ℕ) (r : Registry) → IsUnique r → IsUnique (register_plugin type c s p r)
unfolding plugin_entry register_plugin
register_plugin-IsUnique type c s p [] h = (refl, tt)
register_plugin-IsUnique type c s p (e ∷ es) h = ground (
  arith,
  register_plugin-IsUnique type c s p es h.1,
  plugin_entry-register_plugin type e.type c s p es,
)

-- The library has no function of one of the four names.
abbrev pub IsMissing : Os → ℕ → Type 0
IsMissing os handle =
    (os.dlsym handle (codes "create") ≡ none)
    ⊎ (os.dlsym handle (codes "type") ≡ none)
    ⊎ (os.dlsym handle (codes "socketName") ≡ none)
    ⊎ (os.dlsym handle (codes "temporaryProcessName") ≡ none)

-- What a registration gives, as the type returned and the registry after it.
abbrev pub Registers : Os → ℕ → Registry → ℕ × Registry → Type 0
Registers os handle r (type, r') =
    IsUnique r'
    × ((IsMissing os handle × (type ≡ 0) × (r' ≡ r))
        ⊎ ((c : ℕ) × (t : ℕ) × (s : ℕ) × (p : ℕ) × (os.dlsym handle (codes "create") ≡ some c)
            × (os.dlsym handle (codes "type") ≡ some t)
            × (os.dlsym handle (codes "socketName") ≡ some s)
            × (os.dlsym handle (codes "temporaryProcessName") ≡ some p)
            × (type ≡ os.call_char t)
            × ((other : ℕ)
                → plugin_entry other r' ≡ (
                    if type == other
                    then some (record {
                      type = type;
                      create_func = c;
                      socket_name_func = s;
                      temporary_process_name_func = p;
                    })
                    else plugin_entry other r))))

misses :
    (os : Os) (handle : ℕ) (r : Registry)
    → IsUnique r
    → IsMissing os handle
    → validate_and_register_plugin os handle r ≡ (0, r)
    → Registers os handle r (validate_and_register_plugin os handle r)
misses os handle r u missing same =
    subst (Registers os handle r) (sym same) (u, inl (missing, refl, refl))

registers :
    (os : Os) (handle : ℕ) (r : Registry) (c t s p : ℕ)
    → IsUnique r
    → os.dlsym handle (codes "create") ≡ some c
    → os.dlsym handle (codes "type") ≡ some t
    → os.dlsym handle (codes "socketName") ≡ some s
    → os.dlsym handle (codes "temporaryProcessName") ≡ some p
    → Registers os handle r (validate_and_register_plugin os handle r)
unfolding validate_and_register_plugin
registers os handle r c t s p u ec et es ep =
    let type = os.call_char t in
    let runs : validate_and_register_plugin os handle r ≡ (type, register_plugin type c s p r) =
      ground (arith, ec, et, es, ep) in
    subst (Registers os handle r) (sym runs) (
      register_plugin-IsUnique type c s p r u,
      inr (
        c,
        t,
        s,
        p,
        ec,
        et,
        es,
        ep,
        refl,
        λ other. plugin_entry-register_plugin type other c s p r,
      ),
    )

-- If a library misses one of the four functions, 0 is returned and the registry stays; otherwise the
-- type that it reports is returned, its four functions are then the entry of that type, and the entries of
-- the other types stay. In both cases types stay unique.
pub validate_and_register_plugin_lem :
    (os : Os) (handle : ℕ) (r : Registry)
    → IsUnique r
    → Registers os handle r (validate_and_register_plugin os handle r)
unfolding validate_and_register_plugin
validate_and_register_plugin_lem os handle r u =
    elim (Option-cases (os.dlsym handle (codes "create"))) [
      | inl e ↦ misses os handle r u (inl e) (ground (arith, e))
      | inr (c, ec) ↦ elim (Option-cases (os.dlsym handle (codes "type"))) [
        | inl e ↦ misses os handle r u (inr (inl e)) (ground (arith, ec, e))
        | inr (t, et) ↦ elim (Option-cases (os.dlsym handle (codes "socketName"))) [
          | inl e ↦ misses os handle r u (inr (inr (inl e))) (ground (arith, ec, et, e))
          | inr (s, es) ↦ elim (Option-cases (os.dlsym handle (codes "temporaryProcessName"))) [
            | inl e ↦ misses os handle r u (inr (inr (inr e))) (ground (arith, ec, et, es, e))
            | inr (p, ep) ↦ registers os handle r c t s p u ec et es ep
          ]
        ]
      ]
    ]
