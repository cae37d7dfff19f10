-- ===== src/Echo/Visit.antt =====
-- The loops of the echo server on one descriptor end and keep its invariant.
use snet.Prelude.{
  ℕ, zero, suc, ◌+◌, ◌-◌, ◌≤◌, ◌<◌, ◌≡◌, ◌≢◌, refl, ap, List, [], ◌∷◌, ◌++◌, some, Bool, true,
  false, ◌==◌, ltb, leb, ◌&&◌, Bool-cases, inl, inr, ◌⊎◌, arith,
}
use snet.Tcp.Types.{RecvResult, SendResult}
use snet.Echo.{
  FdSet, fd_setsize, AcceptResult, SelectResult, System, Server, tick, admit, accept_answer,
  accept_all, send_answer, recv_answer, echo_all, visit, scan,
}
use snet.Echo.Sound.{IsSound, Keeps, Keeps-refl, Keeps-trans, admit-IsSound, clean_up-IsSound}

-- What is asked of the system: a descriptor fits an fd_set, select reports descriptors of the set
-- that it is given, and from call `last` on nobody connects or sends and select reports nothing.
pub record IsQuietFrom (os : System) (last : ℕ) : Type 0 where
  pub fits :
      (n : ℕ) (fds : FdSet) (sd : ℕ) → os.accept n fds ≡ AcceptResult.accepted sd → sd < fd_setsize
  pub within :
      (n : ℕ) (set : FdSet) (count : ℕ) (working_set : FdSet) (x : ℕ)
      → os.select n set ≡ SelectResult.ready count working_set
      → working_set x ≡ true
      → set x ≡ true
  pub nobody :
      (n : ℕ) (fds : FdSet) (sd : ℕ) → os.accept n fds ≡ AcceptResult.accepted sd → n < last
  pub nothing : (n x : ℕ) (bytes : List ℕ) → os.recv n ≡ RecvResult.received (x ∷ bytes) → n < last
  pub none_ready :
      (n : ℕ) (set : FdSet) (count : ℕ) (working_set : FdSet)
      → os.select n set ≡ SelectResult.ready count working_set
      → n < last

accept-cases :
    (a : AcceptResult)
    → ((sd : ℕ) × (a ≡ AcceptResult.accepted sd))
      ⊎ ((a ≡ AcceptResult.would_block) ⊎ (a ≡ AcceptResult.failed))
accept-cases (AcceptResult.accepted sd) = inl (sd, refl)
accept-cases AcceptResult.would_block = inr (inl refl)
accept-cases AcceptResult.failed = inr (inr refl)

pub tick-IsSound : (s : Server) → IsSound s → IsSound (tick s)
tick-IsSound s v = record {
  same = v.same;
  listening = v.listening;
  top = v.top;
  below = v.below;
  small = v.small;
  closes = v.closes;
  echoed = v.echoed;
  inside = v.inside;
}

tick-Keeps : (s : Server) → Keeps 0 s (tick s)
tick-Keeps s = record { stays = λ x le h. h; listens = refl; time = omega arith }

module _ (os : System) {last : ℕ} (quiet : IsQuietFrom os last) where
  accept_all-IsSound :
      (fuel : ℕ) (s : Server)
      → last < fuel + s.clock
      → 0 < fuel
      → IsSound s
      → (t : Server) × (accept_all os fuel s ≡ some t) × IsSound t × Keeps 0 s t
  unfolding accept_all accept_answer
  accept_all-IsSound zero s left more v = elim more [ ]
  accept_all-IsSound (suc fuel) s left more v =
      let s' = tick s in
      let v' = tick-IsSound s v in
      elim (accept-cases (os.accept s.clock s.fds)) [
        | inl (sd, e) ↦
            let early = quiet.nobody s.clock s.fds sd e in
            let (v'', k) = admit-IsSound sd s' (quiet.fits s.clock s.fds sd e) v' in
            let time = k.time in
            let (t, done, w, l) =
              accept_all-IsSound fuel (admit sd s') (omega arith) (omega arith) v'' in
            (
              t,
              rw e done,
              w,
              Keeps-trans (omega arith) (tick-Keeps s) (Keeps-trans (omega arith) k l),
            )
        | inr (inl e) ↦ (s', rw e refl, v', tick-Keeps s)
        | inr (inr e) ↦ (
          record s' { end_server = true },
          rw e refl,
          record {
            same = v.same;
            listening = v.listening;
            top = v.top;
            below = v.below;
            small = v.small;
            closes = v.closes;
            echoed = v.echoed;
            inside = v.inside;
          },
          record { stays = λ x le h. h; listens = refl; time = omega arith },
        )
      ]

  -- A block that is read is given to send whole.
  echoed-IsSound :
      (s : Server) (i : ℕ) (bytes : List ℕ)
      → IsSound s
      → let t = tick (record s {
        recvs = s.recvs ++ ((i, bytes) ∷ []);
        sends = s.sends ++ ((i, bytes) ∷ []);
      }) in
        IsSound t × Keeps 0 s t
  echoed-IsSound s i bytes v = (
    record {
      same = v.same;
      listening = v.listening;
      top = v.top;
      below = v.below;
      small = v.small;
      closes = v.closes;
      echoed = ap (λ xs. xs ++ ((i, bytes) ∷ [])) v.echoed;
      inside = v.inside;
    },
    record { stays = λ x le h. h; listens = refl; time = omega arith },
  )

  recv-cases :
      (r : RecvResult)
      → ((x : ℕ) × (bytes : List ℕ) × (r ≡ RecvResult.received (x ∷ bytes)))
        ⊎ ((again : Server → _) (s : Server) (i : ℕ)
            → (b : Bool) × (recv_answer os again i r s ≡ some (b, s)))
  unfolding recv_answer
  recv-cases (RecvResult.received []) = inr (λ again s i. (true, refl))
  recv-cases (RecvResult.received (x ∷ bytes)) = inl (x, bytes, refl)
  recv-cases RecvResult.would_block = inr (λ again s i. (false, refl))
  recv-cases RecvResult.failed = inr (λ again s i. (true, refl))

  send-cases :
      (r : SendResult)
      → ((n : ℕ) × (r ≡ SendResult.sent n))
        ⊎ ((again : Server → _) (s : Server) → send_answer os again r s ≡ some (true, s))
  unfolding send_answer
  send-cases (SendResult.sent n) = inl (n, refl)
  send-cases SendResult.would_block = inr (λ again s. refl)
  send-cases SendResult.failed = inr (λ again s. refl)

  echo_all-IsSound :
      (fuel i : ℕ) (s : Server)
      → last < fuel + s.clock
      → 0 < fuel
      → IsSound s
      → (b : Bool) × (t : Server) × (echo_all os fuel i s ≡ some (b, t)) × IsSound t × Keeps 0 s t
  unfolding echo_all
  echo_all-IsSound zero i s left more v = elim more [ ]
  echo_all-IsSound (suc fuel) i s left more v =
      let s' = tick s in
      let v' = tick-IsSound s v in
      elim (recv-cases (os.recv s.clock)) [
        | inr ends ↦
            let (b, done) = ends (echo_all os fuel i) s' i in (b, s', done, v', tick-Keeps s)
        | inl (x, bytes, e) ↦
            let early = quiet.nothing s.clock x bytes e in
            let (w, k) = echoed-IsSound s' i (x ∷ bytes) v' in
            let t = tick (record s' {
              recvs = s.recvs ++ ((i, x ∷ bytes) ∷ []);
              sends = s.sends ++ ((i, x ∷ bytes) ∷ []);
            }) in
            let first = Keeps-trans (omega arith) (tick-Keeps s) k in
            elim (send-cases (os.send (s.clock + 1) (x ∷ bytes))) [
              | inr failed ↦
                  (true, t, rw (e, recv_answer) (failed (echo_all os fuel i) t), w, first)
              | inl (n, sent) ↦
                  let (b, u, done, w', l) =
                    echo_all-IsSound fuel i t (omega arith) (omega arith) w in
                  (
                    b,
                    u,
                    rw (e, recv_answer) (rw (sent, send_answer) done),
                    w',
                    Keeps-trans (omega arith) first l,
                  )
            ]
      ]

  -- One descriptor of the master set that is ready.
  pub visit-IsSound :
      (fuel i : ℕ) (s : Server)
      → last < fuel
      → s.master_set i ≡ true
      → IsSound s
      → (t : Server) × (visit os fuel i s ≡ some t) × IsSound t × Keeps (suc i) s t
  unfolding visit
  visit-IsSound fuel i s left m v = elim (Bool-cases (i == s.listen_sd)) [
    | inl own ↦
        let (t, done, w, k) = accept_all-IsSound fuel s (omega arith) (omega arith) v in
        (t, rw own done, w, Keeps-trans (omega arith) k (Keeps-refl (suc i) t))
    | inr other ↦
        let (b, t, done, w, k) = echo_all-IsSound fuel i s (omega arith) (omega arith) v in
        let first = Keeps-trans (omega arith) k (Keeps-refl (suc i) t) in
        elim (Bool-cases b) [
          | inr open_ ↦ (t, rw (other, done, open_) refl, w, first)
          | inl closing ↦
              let ne : i ≢ t.listen_sd = λ e. ground (arith, k.listens) in
              let (u, cleaned, w', l) = clean_up-IsSound i t (k.stays i (omega arith) m) ne w in
              (u, rw (other, done, closing) cleaned, w', Keeps-trans (omega arith) first l)
        ]
  ]

  -- From descriptor i on, where what is ready is in the master set.
  pub scan-IsSound :
      (fuel rounds i ready : ℕ) (working_set : FdSet) (s : Server)
      → last < fuel
      → fd_setsize < rounds + i
      → i ≤ fd_setsize
      → ((x : ℕ) → i ≤ x → working_set x ≡ true → s.master_set x ≡ true)
      → IsSound s
      → (t : Server) × (scan os fuel rounds i ready working_set s ≡ some t)
        × IsSound t
        × (s.clock ≤ t.clock)
  unfolding scan
  scan-IsSound fuel zero i ready working_set s left more le m v = absurd (omega arith)
  scan-IsSound fuel (suc rounds) i ready working_set s left more le m v =
      elim (Bool-cases (leb i s.max_sd && ltb 0 ready)) [
        | inr over ↦ (s, rw over refl, v, omega arith)
        | inl within ↦
            let room : suc i ≤ fd_setsize = ground (arith, v.small) in
            elim (Bool-cases (working_set i)) [
              | inr idle ↦
                  let (t, done, w, time) =
                    scan-IsSound fuel rounds (suc i) ready working_set s left (omega arith) room
                      (λ x le h. m x (omega arith) h) v in
                  (t, rw (within, idle) done, w, time)
              | inl busy ↦
                  let (u, visited, w, k) = visit-IsSound fuel i s left (m i (omega arith) busy) v in
                  let (t, done, w', time) =
                    scan-IsSound fuel rounds (suc i) (ready - 1) working_set u left (omega arith)
                      room (λ x le h. k.stays x le (m x (omega arith) h)) w in
                  (t, rw (within, busy, visited) done, w', omega (arith, k.time))
            ]
      ]
