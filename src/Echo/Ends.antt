-- ===== src/Echo/Ends.antt =====
-- `main` of the echo server ends with all its sockets closed.
use snet.Prelude.{
  ℕ, zero, suc, ◌+◌, ◌≤◌, ◌<◌, ◌≡◌, refl, ap, sym, ◌∙◌, pos, some, ◌>>=◌, Bool, true, false, ◌&&◌,
  if◌then◌else◌, Bool-cases, inl, inr, ◌⊎◌, arith,
}
use snet.Echo.{
  FdSet, fd_setsize, SelectResult, System, Server, tick, serve, close_fd, close_all, fresh,
  SetupAnswer, set_up, run, main,
}
use snet.Echo.Sound.{IsSound}
use snet.Echo.Visit.{IsQuietFrom, tick-IsSound, scan-IsSound}

select-cases :
    (r : SelectResult)
    → ((count : ℕ) × (working_set : FdSet) × (r ≡ SelectResult.ready count working_set))
      ⊎ ((r ≡ SelectResult.failed) ⊎ (r ≡ SelectResult.timed_out))
select-cases (SelectResult.ready count working_set) = inl (count, working_set, refl)
select-cases SelectResult.failed = inr (inl refl)
select-cases SelectResult.timed_out = inr (inr refl)

-- With as much fuel as there are calls until the system falls quiet, and for the places of an
-- fd_set, the loop of `main` on select ends and keeps the invariant.
serve-IsSound :
    (os : System) {last : ℕ}
    → IsQuietFrom os last
    → (fuel rounds : ℕ) (s : Server) → last < fuel
    → fd_setsize < fuel
    → last < rounds + s.clock
    → 0 < rounds
    → IsSound s
    → (t : Server) × (serve os fuel rounds s ≡ some t) × IsSound t
unfolding serve
serve-IsSound os quiet fuel zero s left wide more one v = elim one [ ]
serve-IsSound os quiet fuel (suc rounds) s left wide more one v =
    let v' = tick-IsSound s v in
    elim (select-cases (os.select s.clock s.master_set)) [
      | inr (inl e) ↦ (tick s, rw (e, serve) refl, v')
      | inr (inr e) ↦ (tick s, rw (e, serve) refl, v')
      | inl (count, working_set, e) ↦
          let early = quiet.none_ready s.clock s.master_set count working_set e in
          let (t, scanned, w, time) =
            scan-IsSound os quiet fuel fuel 0 count working_set (tick s) left (omega arith)
              (omega arith) (λ x le h. quiet.within s.clock s.master_set count working_set x e h)
              v' in
          elim (Bool-cases t.end_server) [
            | inl ended ↦ (t, rw (e, serve) (rw (scanned, ended) refl), w)
            | inr again ↦
                let (u, done, w') =
                  serve-IsSound os quiet fuel rounds t left wide (omega arith) (omega arith) w in
                (u, rw (e, serve) (rw (scanned, again) done), w')
          ]
    ]

-- What the loop at the end meets at i with n descriptors to go: it has to close what is open.
record IsLeft (n i : ℕ) (s : Server) : Type 0 where
  member : (x : ℕ) → i ≤ x → s.master_set x ≡ true → s.fds x ≡ true
  range : (x : ℕ) → s.fds x ≡ true → (i ≤ x) × (x < i + n) × (s.master_set x ≡ true)
  closes : s.bad_closes ≡ 0

-- Every socket is closed, and none twice. What was given to send is what was read.
pub record IsOver (s : Server) : Type 0 where
  pub closed : (x : ℕ) → s.fds x ≡ false
  pub closes : s.bad_closes ≡ 0
  pub echoed : s.sends ≡ s.recvs

close_one :
    (n i : ℕ) (s : Server)
    → IsLeft (suc n) i s
    → IsLeft n (suc i) (if s.master_set i then close_fd i s else s)
unfolding close_fd
close_one n i s l = elim (Bool-cases (s.master_set i)) [
  | inl e ↦ rw e (record {
    member = λ x le h. ground (arith, l.member x);
    range = λ x h. ground (arith, l.range x);
    closes = ground (arith, l.member i, l.closes);
  })
  | inr e ↦ rw e (record {
    member = λ x le h. l.member x (omega arith) h;
    range = λ x h. ground (arith, l.range x);
    closes = l.closes;
  })
]

close_one-keeps :
    (i : ℕ) (s : Server)
    → let t = if s.master_set i then close_fd i s else s in
      (t.sends ≡ s.sends) × (t.recvs ≡ s.recvs)
unfolding close_fd
close_one-keeps i s = ground arith

close_all-IsOver :
    (n i : ℕ) (s : Server) → IsLeft n i s → s.sends ≡ s.recvs → IsOver (close_all n i s)
unfolding close_all
close_all-IsOver zero i s l echoed = record {
  closed =
      λ x. elim (Bool-cases (s.fds x)) [ inl e ↦ absurd (omega (arith, l.range x e)) | inr e ↦ e ];
  closes = l.closes;
  echoed = echoed;
}
close_all-IsOver (suc n) i s l echoed =
    let k = close_one-keeps i s in
    close_all-IsOver n (suc i) _ (close_one n i s l) (k.0 ∙ echoed ∙ sym k.1)

fresh-IsSound : (sd : ℕ) → sd < fd_setsize → IsSound (fresh sd)
unfolding fresh
fresh-IsSound sd lt = record {
  same = refl;
  listening = ground arith;
  top = ground arith;
  below = λ x h. ground arith;
  small = lt;
  closes = refl;
  echoed = refl;
  inside = ground arith;
}

IsSound-IsLeft : (s : Server) → IsSound s → IsLeft (suc s.max_sd) 0 s
IsSound-IsLeft s v = record {
  member = λ x le h. ap (λ f. f x) (sym v.same) ∙ h;
  range = λ x h.
      let m : s.master_set x ≡ true = ap (λ f. f x) v.same ∙ h in
      (omega arith, omega (arith, v.below x m), m);
  closes = v.closes;
}

refused-IsOver : (sd : ℕ) → sd < fd_setsize → IsOver (close_fd sd (fresh sd))
unfolding close_fd fresh
refused-IsOver sd lt = record { closed = λ x. ground arith; closes = ground arith; echoed = refl }

-- Every call of the set up is granted.
abbrev granted : SetupAnswer → Bool
granted a = a.reuse_ok && (a.nonblocking_ok && (a.bind_ok && a.listen_ok))

set_up_answer :
    (a : SetupAnswer) (sd : ℕ)
    → set_up a sd ≡ (granted a, if granted a then fresh sd else close_fd sd (fresh sd))
unfolding set_up
set_up_answer a sd = ground arith

run-IsOver :
    (os : System) {last : ℕ}
    → IsQuietFrom os last
    → (fuel sd : ℕ) (a : SetupAnswer) → last < fuel
    → fd_setsize < fuel
    → sd < fd_setsize
    → (t : Server) × (run os fuel (set_up a sd) ≡ some t) × IsOver t
unfolding run
run-IsOver os quiet fuel sd a left wide fits =
    let start = fresh-IsSound sd fits in
    let answer = set_up_answer a sd in
    elim (Bool-cases (granted a)) [
      | inr refused ↦ (close_fd sd (fresh sd), rw (answer, refused) refl, refused-IsOver sd fits)
      | inl all ↦
          let (s, served, v) =
            serve-IsSound os quiet fuel fuel (fresh sd) left wide (omega arith) (omega arith)
              start in
          (
            close_all (suc s.max_sd) 0 s,
            rw (answer, all, served) refl,
            close_all-IsOver (suc s.max_sd) 0 s (IsSound-IsLeft s v) v.echoed,
          )
    ]

main-run :
    (os : System) (fuel sd : ℕ) (a : SetupAnswer)
    → a.socket ≡ pos sd
    → main os fuel a ≡ (run os fuel (set_up a sd) >>= λ s. some (some s))
unfolding main
main-run os fuel sd a opened = rw (opened, main) refl

-- Where every system call returns: if the socket call answers with a descriptor, `main` comes to its
-- end, whichever call of its set up fails, with each socket of the server closed, none closed twice,
-- and every block read given to send for the descriptor it came from, in order. `recv` on an accepted
-- socket that has nothing answers EWOULDBLOCK, as on a system on which such a socket inherits the
-- nonblocking state; the descriptors fit an fd_set, which the program does not test; select reports only members of
-- the set it is given; and from some call on nobody connects or sends and select reports nothing. The
-- fuel is above that call and above FD_SETSIZE.
pub main-IsOver :
    (os : System) {last : ℕ}
    → IsQuietFrom os last
    → (fuel sd : ℕ) (a : SetupAnswer) → last < fuel
    → fd_setsize < fuel
    → a.socket ≡ pos sd
    → sd < fd_setsize
    → (t : Server) × (main os fuel a ≡ some (some t)) × IsOver t
main-IsOver os quiet fuel sd a left wide opened fits =
    let (t, done, over) = run-IsOver os quiet fuel sd a left wide fits in
    (t, main-run os fuel sd a opened ∙ ap (λ o. o >>= λ s. some (some s)) done, over)
