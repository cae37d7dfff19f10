-- ===== src/Tests/Making.antt =====
-- A listener that is made with two workers, and a connection that is reset and connected again.
use snet.Prelude.{ℕ, ◌≡◌, refl, pos, List, [], ◌∷◌, ◌&&◌, true, not, has}
use snet.Tcp.Types.{Conn}
use snet.Tcp.Listener.Socket.{stop}
use snet.Tcp.Listener.Making.{listener_with, span, listener_with-stop}
use snet.Tcp.Lifecycle.{ConnectAnswer}
use snet.Tests.Connections.{open_conn}
use snet.Tests.Server.{one_conn}

listener_with-stop_example :
    let l = listener_with (λ w. true) one_conn (λ v. true) 5 2 in
    let (ok, l') = stop l in
    (l.tcp_workers ≡ span 6 2)
    × (l.listen_worker ≡ 5)
    × (ok ≡ true)
    × ((v : ℕ) → l'.running v ≡ (not (has v (span 5 3)) && true))
listener_with-stop_example = listener_with-stop (λ w. true) one_conn (λ v. true) 5 2 (λ w. refl)

-- Three bytes wait for the peer that has gone.
abbrev conn : Conn
conn = record open_conn { need_reconnect = true; send_buffer = 1 ∷ 2 ∷ 3 ∷ [] }

abbrev answers : List ConnectAnswer
answers =
    record { socket = pos 8; address_ok = true; connected = true }
    ∷ record { socket = pos 9; address_ok = true; connected = true }
    ∷ []
