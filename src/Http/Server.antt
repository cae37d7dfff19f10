-- ===== src/Http/Server.antt =====
-- HttpServer of include/http/http_server.h, over its listener. Its factory is the listener's.
use snet.Prelude.{
  Bool, chars, ℕ, zero, suc, ◌+◌, ◌^◌, ◌<◌, ◌≡◌, refl, sym, ap, ◌∙◌, List, [], ◌∷◌, ◌++◌,
  append_assoc, append-nil, Option, none, some, true, ◌==◌, if◌then◌else◌, arith,
}
use snet.Tcp.Listener
use snet.Tcp.Listener.{Listener}
use snet.Tcp.Listener.Socket
use snet.Tcp.Listener.Socket.{ListenAnswer, Started, IsGranted, opening, start_url, start_granted}
use snet.Url.{NetUrl, StdInt, parse, encode, encode_port, separator, colon, question}
use snet.Url.Words.{Lacks, IsParams}
use snet.Url.Roundtrip.{IsDecimal, IsUrl, parse-encode}

-- The listener, and the number of the next worker that is made.
pub record HttpServer : Type 0 where
  pub http_listener : Listener
  pub next_worker : ℕ

-- `add_worker`: with a null pointer a worker is made and started.
unfoldable pub add_worker : Option ℕ → HttpServer → HttpServer
add_worker (some w) s = record s { http_listener = Listener.add_worker (some w) s.http_listener }
add_worker none s =
    let w = s.next_worker in
    let l = record s.http_listener {
      running = λ v. if v == w then true else s.http_listener.running v;
    } in
    record s { http_listener = Listener.add_worker (some w) l; next_worker = w + 1 }

-- The loop of the constructor.
unfoldable pub add_workers : ℕ → HttpServer → HttpServer
unfolding add_worker
add_workers zero s = s
add_workers (suc n) s = add_workers n (add_worker none s)

module _ (std : StdInt) where
  -- "tcp://" + host + ":" + std::to_string(port)
  abbrev pub server_url : ℕ → List ℕ → List ℕ
  server_url port host = ((chars "tcp://" ++ host) ++ chars ":") ++ std.to_string port

  -- `start`, which returns true if the listener's `start` returns; `none` means that an exception is
  -- thrown.
  unfoldable pub start : ListenAnswer → ℕ → List ℕ → HttpServer → Option (Started × HttpServer)
  start a port host s = elim (start_url std a (server_url port host) s.http_listener) [
    | none ↦ none
    | some (ended, l) ↦ some (ended, record s { http_listener = l })
  ]

-- `stop`
unfoldable pub stop : HttpServer → Bool × HttpServer
stop s = let (ok, l) = Socket.stop s.http_listener in (ok, record s { http_listener = l })

module _ {std : StdInt} (d : IsDecimal std) where
  abbrev address : ℕ → List ℕ → NetUrl
  address port host = record { protocol = chars "tcp"; host = host; port = port; params = [] }

  address-IsUrl :
      (port : ℕ) (host : List ℕ)
      → Lacks colon host
      → Lacks question host
      → port < 2 ^ 16
      → IsUrl (address port host)
  unfolding Lacks IsParams
  address-IsUrl port host no_colon no_question small = record {
    protocol_ok = ground arith;
    host_colon = no_colon;
    host_question = no_question;
    port_word = small;
    params_ok = _;
  }

  encode-address :
      (port : ℕ) (host : List ℕ)
      → 0 < port
      → encode std (address port host) ≡ server_url std port host
  unfolding encode
  encode-address port host positive =
      let digits = std.to_string port in
      let opened : encode_port std port ≡ colon ∷ digits = ground arith in
      let tail : (host ++ encode_port std port) ++ [] ≡ (host ++ (colon ∷ [])) ++ digits =
        append-nil _ ∙ ap (λ t. host ++ t) opened ∙ sym (append_assoc host (colon ∷ []) digits) in
      ap (λ t. chars "tcp" ++ (separator ++ t)) tail

  -- `start` of a server listens on the very host and port that it is given, with the worker of its
  -- listener: the URL that it writes is read back. The host has no ':' and no '?', the port is
  -- between 1 and 2 ^ 16 - 1, `stoi` reads what `to_string` writes, and every call succeeds.
  pub start_lem :
      (a : ListenAnswer) (port : ℕ) (host : List ℕ) (s : HttpServer)
      → Lacks colon host
      → Lacks question host
      → 0 < port
      → port < 2 ^ 16
      → IsGranted a
      → let l = s.http_listener in
        start std a port host s
        ≡ some (
          Started.listening,
          record s {
            http_listener = record l {
              listen_addr = host;
              listen_sd = a.socket;
              calls = l.calls ++ opening a port host l;
            };
          },
        )
  unfolding start start_url parse
  start_lem a port host s no_colon no_question positive small g =
      let l = s.http_listener in
      let v = address-IsUrl port host no_colon no_question small in
      let blank : NetUrl = record { protocol = []; host = []; port = 0; params = [] } in
      let read : parse std (server_url std port host) blank ≡ some (true, address port host) =
        ap (λ t. parse std t blank) (sym (encode-address port host positive))
        ∙ parse-encode d (address port host) blank v in
      rw (read, start_granted a port host l g) refl
