-- ===== src/Booster/Instance.antt =====
-- The single-instance lock in `initialize` of src/launcherlib/booster.cpp.
mod Tests
use touch_applauncherd.Common.{
  ℕ, ◌≡◌, refl, ap, ◌∙◌, ◌⊎◌, Bool, true, false, if◌then◌else◌, List, ◌∷◌, Option, none, some, Text,
  arith, Bool-cases, Option-cases, inl, inr,
}
use touch_applauncherd.Common.Exits.{done, ◌>>=◌, ◌>>◌, bind-done}
use touch_applauncherd.Common.Int.{ℤ}
use touch_applauncherd.Os.{Os}
use touch_applauncherd.AppData.{single_instance}
use touch_applauncherd.SingleInstance.{SingleInstancePluginEntry}
use touch_applauncherd.MDeclarativeCache.{Qt}
use touch_applauncherd.Daemon.{Pipe}
use touch_applauncherd.Booster.{Booster}
use touch_applauncherd.Booster.Kinds.{Kind}
use touch_applauncherd.Booster.Initializing.{
  receive_request, lock_instance, ensure_single_instance, take_over, go_on, prepare, initialize,
}

module _ (os : Os) where
  -- The request in this state may go on: it asks for no lock, or there is no plugin to ask, or the
  -- plugin grants the lock for the application's name.
  pub data MayRun (b : Booster) : Type 0 where
    no_wish : single_instance b.m_app_data ≡ false → MayRun b
    no_plugin : b.m_single_instance ≡ none → MayRun b
    granted :
        (entry : SingleInstancePluginEntry)
        → b.m_single_instance ≡ some entry
        → os.lock_result b.calls entry.lock_func b.m_app_data.m_app_name ≡ true
        → MayRun b

  ensure_single_instance-MayRun :
      (b t : Booster) → ensure_single_instance os b ≡ done tt t → MayRun b
  unfolding ensure_single_instance lock_instance
  ensure_single_instance-MayRun b t e = elim (Bool-cases (single_instance b.m_app_data)) [
    | inr no_lock ↦ no_wish no_lock
    | inl wish ↦ elim (Option-cases b.m_single_instance) [
      | inl missing ↦ no_plugin missing
      | inr (entry, there) ↦
          elim (Bool-cases (os.lock_result b.calls entry.lock_func b.m_app_data.m_app_name)) [
            | inl locked ↦ granted entry there locked
            | inr refused ↦ absurd (ground (arith, wish, there, refused, e))
          ]
    ]
  ]

  go_on-MayRun :
      (kind : Kind) (parent_argv : List Text) (r : Option Bool) (b t : Booster)
      → go_on os kind parent_argv r b ≡ done true t
      → (r ≡ some true) × MayRun b
  unfolding go_on take_over
  go_on-MayRun kind parent_argv none b t e = absurd (ground (arith, e))
  go_on-MayRun kind parent_argv (some false) b t e = absurd (ground (arith, e))
  go_on-MayRun kind parent_argv (some true) b t e =
      let (_, u, takes, e1) = bind-done (take_over os kind parent_argv) _ b t true e in
      let (_, v, ensures, e2) = bind-done (ensure_single_instance os) _ b u tt takes in
      (refl, ensure_single_instance-MayRun b v ensures)

  -- A booster gets through `initialize` only with a whole request that may run: in the state in which
  -- the request had come, no lock was wished for, or no plugin was loaded, or the plugin granted
  -- the lock for the application's name.
  pub initialize-MayRun :
      (qt : Qt) (kind : Kind) (fuel : ℕ) (parent_argv : List Text) (pipe_fd : Pipe) (socket_fd : ℤ)
      (boot_mode : Bool) (b t : Booster)
      → initialize os qt kind fuel parent_argv pipe_fd socket_fd boot_mode b ≡ done true t
      → (p : Booster) × (u : Booster) × (prepare os qt kind parent_argv pipe_fd boot_mode b
          ≡ done tt p)
        × (receive_request os kind socket_fd fuel p ≡ done (some true) u)
        × MayRun u
  unfolding initialize
  initialize-MayRun qt kind fuel parent_argv pipe_fd socket_fd boot_mode b t e =
      let (_, p, prepares, e1) =
        bind-done (prepare os qt kind parent_argv pipe_fd boot_mode) _ b t true e in
      let (r, u, receives, e2) = bind-done (receive_request os kind socket_fd fuel) _ p t true e1 in
      let (whole, may) = go_on-MayRun kind parent_argv r u t e2 in
      (p, u, prepares, receives ∙ ap (λ (r : Option Bool). done r u) whole, may)
