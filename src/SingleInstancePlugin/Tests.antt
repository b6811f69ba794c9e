-- ===== src/SingleInstancePlugin/Tests.antt =====
-- The single-instance program for a binary that runs and for one that does not.
use touch_applauncherd.Common.{
  ℕ, ◌≡◌, refl, inr, ◌==◌, if◌then◌else◌, true, false, List, [], ◌∷◌, none, some, codes, arith,
}
use touch_applauncherd.Common.Exits.{reached}
use touch_applauncherd.Common.Int.{pos, minus_one, int_eq}
use touch_applauncherd.Os.{Os}
use touch_applauncherd.Wire.Queued.{queue_os}
use touch_applauncherd.SingleInstancePlugin.{
  Desktop, Plugin, launch, mkpath, make_parts, make_part, ends_part,
}
use touch_applauncherd.SingleInstancePlugin.Directories.{has_asked, mkpath-asks}
use touch_applauncherd.SingleInstancePlugin.Locking.{Ended, launch-Ended}

-- Three windows; the second and the third are of process 12, which runs /bin/a.
abbrev desktop : Desktop
desktop = record {
  has_display = true;
  client_list = some (21 ∷ 22 ∷ 23 ∷ []);
  net_wm_pid = λ w. if w == 21 then none else some (pos 12);
  cmdline = λ pid. if int_eq pid (pos 12) then some (codes "/bin/a") else none;
}

abbrev clients : List ℕ
clients = 21 ∷ 22 ∷ 23 ∷ []

abbrev plugin : Plugin
plugin = record { g_lock_fd = minus_one; calls = []; raised = [] }

-- Nobody gets a lock.
abbrev taken : Os
taken = record (queue_os []) { set_lock_ok = λ h fd. false }

launch-Ended_example :
    Ended taken desktop (codes "/bin/a") plugin (launch taken desktop (codes "/bin/a") plugin)
launch-Ended_example = launch-Ended taken desktop (codes "/bin/a") plugin

abbrev made_path : Plugin
made_path = reached (mkpath taken (codes "/tmp/a/b") plugin)

mkpath-asks_example : has_asked (codes "/tmp/a") made_path.calls ≡ true
unfolding mkpath make_parts make_part ends_part
mkpath-asks_example =
    mkpath-asks taken (codes "/tmp/") (codes "/b") b'a' plugin made_path
      (inr (codes "b", refl, omega arith)) refl
