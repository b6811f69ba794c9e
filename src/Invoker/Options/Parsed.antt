-- ===== src/Invoker/Options/Parsed.antt =====
-- The options of src/invoker/invoker.c, main(), by what they leave for the request.
use touch_applauncherd.Common.{
  ℕ, ◌≤◌, ◌<◌, ◌≡◌, refl, sym, ◌∙◌, subst, Bool, true, false, not, ◌&&◌, ◌==◌, ltb, if◌then◌else◌,
  List, [], ◌∷◌, Text, bit_or, arith, Bool-cases, inl, inr, holds_below, holds_below-at,
}
use touch_applauncherd.Common.Exits.{done, ◌>>=◌, ◌>>◌, pure, exit, modify, bind-done}
use touch_applauncherd.Common.Invariant.{
  Invariant, Invariant-bind, Invariant-pure, Invariant-exit, Invariant-modify, Invariant-if,
}
use touch_applauncherd.Connection.Receive.{wants_wait}
use touch_applauncherd.Invoker.Options.{
  AppType, Options, Numbers, m_app, qt_app, qdecl_app, default_options, without, add_option,
  parse_type, get_delay, parse_option, parse_options, max_respawn_delay,
}

-- The options are a byte, their wait bit says whether the invoker waits, and the respawn delay is
-- within its bounds.
pub record IsValid (o : Options) : Type 0 where
  pub few_bits : o.magic_options < 16
  pub waits : wants_wait o.magic_options ≡ o.wait_term
  pub respawns : (0 < o.respawn_delay) × (o.respawn_delay ≤ max_respawn_delay)

abbrev same_bool : Bool → Bool → Bool
same_bool true b = b
same_bool false b = not b

-- What an option's bit does to the four bits.
adds_test : ℕ → ℕ → Bool
adds_test bit m = ltb (bit_or m bit) 16 && same_bool (wants_wait (bit_or m bit)) (wants_wait m)

removes_test : ℕ → Bool
removes_test m = ltb (without m 1) 16 && not (wants_wait (without m 1))

removes_table : holds_below removes_test 16 ≡ true
unfolding holds_below removes_test
removes_table = refl

adds_table :
    (holds_below (adds_test 2) 16 ≡ true)
    × (holds_below (adds_test 4) 16 ≡ true)
    × (holds_below (adds_test 8) 16 ≡ true)
unfolding holds_below adds_test
adds_table = (refl, refl, refl)

-- What an option does to the bits of valid options.
adds :
    (bit m : ℕ)
    → holds_below (adds_test bit) 16 ≡ true
    → m < 16
    → (bit_or m bit < 16) × (wants_wait (bit_or m bit) ≡ wants_wait m)
unfolding adds_test
adds bit m table few = ground (arith, holds_below-at (adds_test bit) 16 m few table)

removes : (m : ℕ) → m < 16 → (without m 1 < 16) × (wants_wait (without m 1) ≡ false)
unfolding removes_test
removes m few = ground (arith, holds_below-at removes_test 16 m few removes_table)

add_option-IsValid :
    (bit : ℕ) → holds_below (adds_test bit) 16 ≡ true → Invariant IsValid (add_option bit)
add_option-IsValid bit table = Invariant-modify _ λ o at.
    let (few, same) = adds bit o.magic_options table at.few_bits in
    record { few_bits = few; waits = same ∙ at.waits; respawns = at.respawns }

-- The type does not matter.
set_type-IsValid : (t : AppType) → Invariant IsValid (modify λ o. record o { app_type = t })
set_type-IsValid t =
    Invariant-modify _
      λ o at. record { few_bits = at.few_bits; waits = at.waits; respawns = at.respawns }

parse_type-IsValid : (arg : Text) → Invariant IsValid (parse_type arg)
unfolding parse_type
parse_type-IsValid arg = Invariant-if _ _ _ (set_type-IsValid m_app) (
    Invariant-if _ _ _ (set_type-IsValid qt_app)
      (Invariant-if _ _ _ (set_type-IsValid qdecl_app) (Invariant-exit 1)))

module _ (numbers : Numbers) where
  get_delay_lem :
      (arg : Text) (o t : Options) (delay : ℕ)
      → get_delay numbers arg o ≡ done delay t
      → (t ≡ o) × (0 < delay)
  unfolding get_delay
  get_delay_lem arg o t delay e = ground (arith, e)

  -- The respawn delay is stored before it is compared.
  respawn-IsValid :
      (arg : Text)
      → Invariant IsValid (do
        delay ← get_delay numbers arg
        modify (λ o. record o { respawn_delay = delay })
        if ltb max_respawn_delay delay then exit 1 else pure tt)
  respawn-IsValid arg = record {
    kept = λ o t a at e.
        let (delay, u, gets, goes_on) = bind-done (get_delay numbers arg) _ o t a e in
        let (same, some_delay) = get_delay_lem arg o u delay gets in
        elim (Bool-cases (ltb max_respawn_delay delay)) [
          | inl long ↦ absurd (ground (arith, long, goes_on))
          | inr short ↦
              let is : record o { respawn_delay = delay } ≡ t =
                ground (arith, short, same, goes_on) in
              subst IsValid is (record {
                few_bits = at.few_bits;
                waits = at.waits;
                respawns = (some_delay, ground (arith, short));
              })
        ];
  }

  -- The delay before the exit does not matter.
  delay-IsValid :
      (arg : Text)
      → Invariant IsValid
          (do delay ← get_delay numbers arg; modify (λ o. record o { delay = delay }))
  delay-IsValid arg =
      Invariant-bind _ _
        (record {
          kept = λ o t delay at e. subst IsValid (sym (get_delay_lem arg o t delay e).0) at;
        })
        λ delay.
          Invariant-modify _
            λ o at. record { few_bits = at.few_bits; waits = at.waits; respawns = at.respawns }

  no_wait-IsValid :
      Invariant IsValid
        (modify λ o. record o { wait_term = false; magic_options = without o.magic_options 1 })
  no_wait-IsValid = Invariant-modify _ λ o at.
      let (few, none_waits) = removes o.magic_options at.few_bits in
      record { few_bits = few; waits = none_waits; respawns = at.respawns }

  parse_option-IsValid : (opt : ℕ) (arg : Text) → Invariant IsValid (parse_option numbers opt arg)
  unfolding parse_option
  parse_option-IsValid opt arg = Invariant-if (opt == b'h') _ _ (Invariant-exit 0) (
      Invariant-if (opt == b'c') _ _ (Invariant-exit 0) (
        Invariant-if (opt == b'n') _ _ no_wait-IsValid (
          Invariant-if (opt == b'G') _ _ (add_option-IsValid 2 adds_table.0) (
            Invariant-if (opt == b'D') _ _ (add_option-IsValid 4 adds_table.1) (
              Invariant-if (opt == b't') _ _ (parse_type-IsValid arg) (
                Invariant-if (opt == b'd') _ _ (delay-IsValid arg) (
                  Invariant-if (opt == b'r') _ _ (respawn-IsValid arg) (
                    Invariant-if (opt == b's') _ _ (add_option-IsValid 8 adds_table.2) (
                      Invariant-if (opt == b'?') _ _ (Invariant-exit 1) (Invariant-pure tt))))))))))

  options-IsValid : (opts : List (ℕ × Text)) → Invariant IsValid (parse_options numbers opts)
  unfolding parse_options
  options-IsValid [] = Invariant-pure tt
  options-IsValid ((opt, arg) ∷ opts) =
      Invariant-bind _ _ (parse_option-IsValid opt arg) λ _. options-IsValid opts

  -- Whatever options are given, if main() gets through them, then the options for the magic word are
  -- four bits, the wait bit among them says whether the invoker waits for the application, and the
  -- respawn delay is between 1 and 10 seconds.
  pub parse_options-IsValid :
      (opts : List (ℕ × Text)) (o : Options)
      → parse_options numbers opts default_options ≡ done tt o
      → IsValid o
  unfolding default_options
  parse_options-IsValid opts o e =
      (options-IsValid opts).kept default_options o tt
        (record { few_bits = omega arith; waits = refl; respawns = (omega arith, omega arith) }) e
