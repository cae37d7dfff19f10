-- ===== src/Tcp/Reading.antt =====
-- What reading from the socket leaves alone of a TcpConnection, for a class whose methods leave the
-- same alone.
use mathlib.Core.Path.{subst}
use mathlib.Core.Option
use snet.Prelude.{
  ℕ, zero, suc, ◌+◌, ◌-◌, ◌≡◌, refl, ℤ, pos_part, List, [], ◌∷◌, Option, none, some, Bool, true,
  false, ltb, ◌||◌, ◌==◌, Bool-cases, Option-cases, inl, inr, arith, length, store, load,
}
use snet.Tcp.Types.{conn_open, NetEvent, Effect, RecvResult, Conn, Kernel, Handler}
use snet.Tcp.Connection.{status_is_idle, log_effect, read_buffer_size, close, do_send}
use snet.Tcp.Input.{from, package_loop, keep_rest, process_data, after_recv, recv_answer, do_read}
use snet.Tcp.Lifecycle.{when, raise, on_ready}
use snet.Tcp.Keeps.{
  Keeps, Keeps-refl, Keeps-trans, if-Keeps, keep-fields, status-Keeps, close-Keeps, do_send-Keeps,
  log_effect-Keeps,
}

-- A class whose methods do the same.
pub record IsQuiet (handler : Handler) : Type 0 where
  pub event : (evt : NetEvent) (c : Conn) → Keeps c (handler.handle_event evt c)
  pub message : (frame : List ℕ) (c : Conn) → Keeps c (handler.handle_data frame c)

module _ {handler : Handler} (quiet : IsQuiet handler) where
  pub raise-Keeps : (evt : NetEvent) (c : Conn) → Keeps c (raise handler evt c)
  unfolding raise
  raise-Keeps evt c =
      let logged = log_effect (Effect.raised evt) c in
      Keeps-trans (log_effect-Keeps (Effect.raised evt) c) (quiet.event evt logged)

  pub on_ready-Keeps : (c : Conn) → Keeps c (on_ready handler c)
  unfolding on_ready
  on_ready-Keeps c =
      if-Keeps (status_is_idle c.status)
        (Keeps-trans (status-Keeps conn_open c (λ f. cc))
          (raise-Keeps NetEvent.connect (record c { status = conn_open })))
        (Keeps-refl c)

  loop-Keeps :
      (fuel at : ℕ) (c c' : Conn) (end : Option ℕ)
      → package_loop handler fuel at c ≡ some (c', end)
      → Keeps c c'
  unfolding package_loop
  loop-Keeps zero at c c' end e = cc
  loop-Keeps (suc fuel) at c c' end e =
      let len = pos_part (handler.handle_package (from c.read_buffer at) c.read_pos) in
      let next = handler.handle_data (load c.read_buffer at len) c in
      elim (Bool-cases (ltb at c.read_pos)) [
        | inr done ↦ let same : c ≡ c' = ground arith in subst (Keeps c) same (Keeps-refl c)
        | inl more ↦ elim (Bool-cases (len == 0 || ltb (c.read_pos - at) len)) [
          | inr whole ↦
              let rest : package_loop handler fuel (at + len) next ≡ some (c', end) =
                ground arith in
              Keeps-trans (quiet.message (load c.read_buffer at len) c)
                (loop-Keeps fuel (at + len) next c' end rest)
          | inl short ↦ elim (Bool-cases (ltb read_buffer_size len)) [
            | inl big ↦
                let same : close c ≡ c' = ground arith in subst (Keeps c) same (close-Keeps c)
            | inr small ↦ let same : c ≡ c' = ground arith in subst (Keeps c) same (Keeps-refl c)
          ]
        ]
      ]

  rest-Keeps : (c : Conn) (end : Option ℕ) → Keeps c (keep_rest handler (c, end)).1
  unfolding keep_rest
  rest-Keeps c none = Keeps-refl c
  rest-Keeps c (some at) = keep-fields c _ refl refl refl refl refl

  pub process_data-Keeps :
      (nread : ℕ) (c c' : Conn) (more : Bool)
      → process_data handler nread c ≡ some (more, c')
      → Keeps c c'
  unfolding process_data
  process_data-Keeps nread c c' more e =
      let size = c.read_pos + nread in
      let c₁ = record c { read_pos = size } in
      elim (Option-cases (package_loop handler (suc size) 0 c₁)) [
        | inl stuck ↦ absurd (ground arith)
        | inr ((c₂, end), ran) ↦
            let same : (keep_rest handler (c₂, end)).1 ≡ c' = ground arith in
            Keeps-trans (keep-fields c c₁ refl refl refl refl refl) (
              Keeps-trans (loop-Keeps (suc size) 0 c₁ c₂ end ran)
                (subst (Keeps c₂) same (rest-Keeps c₂ end)))
      ]

module _ {handler : Handler} (quiet : IsQuiet handler) (kernel : Kernel) where
  after_recv-Keeps :
      (again : Conn → Option (ℤ × Conn)) (bytes : List ℕ) (c c' : Conn) (n : ℤ)
      → ((x x' : Conn) (k : ℤ) → again x ≡ some (k, x') → Keeps x x')
      → after_recv handler kernel again bytes c ≡ some (n, c')
      → Keeps c c'
  unfolding after_recv
  after_recv-Keeps again bytes c c' n ih e =
      let filled = record c { read_buffer = store c.read_buffer c.read_pos bytes } in
      let first = keep-fields c filled refl refl refl refl refl in
      elim (Option-cases (process_data handler (length bytes) filled)) [
        | inl stuck ↦ absurd (ground arith)
        | inr ((more, c₁), ran) ↦
            let read =
              Keeps-trans first (process_data-Keeps quiet (length bytes) filled c₁ more ran) in
            elim (Bool-cases more) [
              | inr done ↦ let same : c₁ ≡ c' = ground arith in subst (Keeps c) same read
              | inl repeat ↦ elim (Option-cases (again c₁)) [
                | inl stuck ↦ absurd (ground arith)
                | inr ((k, c₂), e₂) ↦
                    let same : c₂ ≡ c' = ground arith in
                    Keeps-trans read (subst (Keeps c₁) same (ih c₁ c₂ k e₂))
              ]
            ]
      ]

  answer-Keeps :
      (again : Conn → Option (ℤ × Conn)) (a : RecvResult) (c c' : Conn) (n : ℤ)
      → ((x x' : Conn) (k : ℤ) → again x ≡ some (k, x') → Keeps x x')
      → recv_answer handler kernel again a c ≡ some (n, c')
      → Keeps c c'
  unfolding recv_answer
  answer-Keeps again RecvResult.would_block c c' n ih e =
      let same : c ≡ c' = ground arith in subst (Keeps c) same (Keeps-refl c)
  answer-Keeps again RecvResult.failed c c' n ih e =
      let same : close c ≡ c' = ground arith in subst (Keeps c) same (close-Keeps c)
  answer-Keeps again (RecvResult.received []) c c' n ih e =
      let same : close c ≡ c' = ground arith in subst (Keeps c) same (close-Keeps c)
  answer-Keeps again (RecvResult.received (x ∷ bytes)) c c' n ih e =
      after_recv-Keeps again (x ∷ bytes) c c' n ih e

  do_read-Keeps :
      (fuel : ℕ) (c c' : Conn) (n : ℤ) → do_read handler kernel fuel c ≡ some (n, c') → Keeps c c'
  unfolding do_read
  do_read-Keeps zero c c' n e = cc
  do_read-Keeps (suc fuel) c c' n e =
      let room = read_buffer_size - c.read_pos in
      let next = record c { recvs = c.recvs + 1 } in
      elim (Bool-cases (ltb 0 room)) [
        | inl some_room ↦
            let ran : recv_answer handler kernel (do_read handler kernel fuel)
                  (kernel.recv c.recvs room) next
                ≡ some (n, c') =
              ground arith in
            Keeps-trans (keep-fields c next refl refl refl refl refl) (
              answer-Keeps (do_read handler kernel fuel) (kernel.recv c.recvs room) next c' n
                (do_read-Keeps fuel) ran)
        | inr full ↦
            let ran : after_recv handler kernel (do_read handler kernel fuel) [] c ≡ some (n, c') =
              ground arith in
            after_recv-Keeps (do_read handler kernel fuel) [] c c' n (do_read-Keeps fuel) ran
      ]

  pub read_when-Keeps :
      (flag : Bool) (fuel : ℕ) (c c' : Conn)
      → when flag (λ x. Option.map (λ r. r.1) (do_read handler kernel fuel x)) c ≡ some c'
      → Keeps c c'
  read_when-Keeps false fuel c c' e =
      let same : c ≡ c' = ground arith in subst (Keeps c) same (Keeps-refl c)
  read_when-Keeps true fuel c c' e = elim (Option-cases (do_read handler kernel fuel c)) [
    | inl stuck ↦ absurd (ground arith)
    | inr ((n, c₁), ran) ↦
        let same : c₁ ≡ c' = ground arith in subst (Keeps c) same (do_read-Keeps fuel c c₁ n ran)
  ]

  pub send_when-Keeps :
      (flag : Bool) (fuel : ℕ) (c c' : Conn)
      → when flag (do_send kernel fuel) c ≡ some c'
      → Keeps c c'
  send_when-Keeps false fuel c c' e =
      let same : c ≡ c' = ground arith in subst (Keeps c) same (Keeps-refl c)
  send_when-Keeps true fuel c c' e = do_send-Keeps kernel fuel c c' e
