-- ===== src/SocketManager/Tests.antt =====
-- The socket manager with two sockets.
use touch_applauncherd.Common.{◌≡◌, [], ◌∷◌, Text, codes}
use touch_applauncherd.Common.Exits.{done, reached}
use touch_applauncherd.Common.Int.{pos}
use touch_applauncherd.Common.Map.{text_key}
use touch_applauncherd.Os.{Os}
use touch_applauncherd.Wire.Queued.{queue_os}
use touch_applauncherd.SocketManager.{SocketManager, init_socket, close_all_sockets}
use touch_applauncherd.SocketManager.Laws.{closings, close_all_sockets_lem}

abbrev manager : SocketManager
manager = record {
  m_socket_hash = (codes "/tmp/boostm", pos 6) ∷ (codes "/tmp/boostq", pos 7) ∷ [];
  calls = [];
}

abbrev os : Os
os = queue_os []

abbrev path : Text
path = codes "/tmp/boosted"

abbrev bound : SocketManager
bound = reached (init_socket os path manager)

close_all_sockets_lem_example :
    close_all_sockets manager
    ≡ done tt (record { m_socket_hash = []; calls = closings manager.m_socket_hash [] })
close_all_sockets_lem_example = close_all_sockets_lem manager
