-- ===== src/Echo/Sound.antt =====
-- The invariant of the echo server, and the steps that change its set of descriptors.
use snet.Prelude.{
  ℕ, zero, suc, ◌+◌, ◌≤◌, ◌<◌, ◌≡◌, ◌≢◌, refl, sym, ap, ◌∙◌, some, true, false, ◌==◌, if◌then◌else◌,
  Bool-cases, inl, inr, arith,
}
use snet.Echo.{FdSet, put, fd_setsize, Server, close_fd, admit, lower_max, clean_up}

-- The master set holds exactly the sockets that are open. The listening socket is one of them,
-- `max_sd` is the largest, each fits an fd_set, no descriptor was closed that was not open, and what
-- was given to send is what was read.
pub record IsSound (s : Server) : Type 0 where
  pub same : s.master_set ≡ s.fds
  pub listening : s.master_set s.listen_sd ≡ true
  pub top : s.master_set s.max_sd ≡ true
  pub below : (x : ℕ) → s.master_set x ≡ true → x ≤ s.max_sd
  pub small : s.max_sd < fd_setsize
  pub closes : s.bad_closes ≡ 0
  pub echoed : s.sends ≡ s.recvs
  pub inside : s.overran ≡ false

-- From s to t, descriptors from i on stay in the master set.
pub record Keeps (i : ℕ) (s t : Server) : Type 0 where
  pub stays : (x : ℕ) → i ≤ x → s.master_set x ≡ true → t.master_set x ≡ true
  pub listens : t.listen_sd ≡ s.listen_sd
  pub time : s.clock ≤ t.clock

pub Keeps-refl : (i : ℕ) (s : Server) → Keeps i s s
Keeps-refl i s = record { stays = λ x le h. h; listens = refl; time = omega arith }

pub Keeps-trans : {i j : ℕ} {s t u : Server} → i ≤ j → Keeps i s t → Keeps j t u → Keeps j s u
Keeps-trans le k l = record {
  stays = λ x h m. l.stays x h (k.stays x (omega arith) m);
  listens = l.listens ∙ k.listens;
  time = omega (arith, k.time, l.time);
}

pub admit-IsSound :
    (sd : ℕ) (s : Server)
    → sd < fd_setsize
    → IsSound s
    → IsSound (admit sd s) × Keeps 0 s (admit sd s)
unfolding admit
admit-IsSound sd s lt v = (
  record {
    same = ap (put sd true) v.same;
    listening = ground (arith, v.listening);
    top = ground (arith, v.top);
    below = λ x h. ground (arith, v.below x);
    small = ground (arith, v.small);
    closes = v.closes;
    echoed = v.echoed;
    inside = ground (arith, v.inside);
  },
  record { stays = λ x le h. ground arith; listens = refl; time = omega arith },
)

-- Below a member of the set the search stops at the largest member.
lower_max_lem :
    (set : FdSet) (n x : ℕ)
    → set x ≡ true
    → x ≤ n
    → (top : ℕ) × (lower_max set n ≡ some top)
      × (set top ≡ true)
      × (top ≤ n)
      × ((y : ℕ) → set y ≡ true → y ≤ n → y ≤ top)
unfolding lower_max
lower_max_lem set zero x m le =
    let e : x ≡ 0 = omega arith in
    let m' : set 0 ≡ true = ap set (sym e) ∙ m in (0, rw m' refl, m', omega arith, λ y h le. le)
lower_max_lem set (suc n) x m le = elim (Bool-cases (set (suc n))) [
  | inl here ↦ (suc n, rw here refl, here, omega arith, λ y h le. le)
  | inr not_here ↦
      let ne : x ≢ suc n = λ e. cc in
      let (top, found, member, small, largest) = lower_max_lem set n x m (omega arith) in
      (
        top,
        rw not_here found,
        member,
        omega arith,
        λ y h le'. let ne' : y ≢ suc n = λ e. cc in largest y h (omega arith),
      )
]

-- A connection in the master set is cleaned up: it is closed, and the others stay.
pub clean_up-IsSound :
    (i : ℕ) (s : Server)
    → s.master_set i ≡ true
    → i ≢ s.listen_sd
    → IsSound s
    → (t : Server) × (clean_up i s ≡ some t) × IsSound t × Keeps (suc i) s t
unfolding clean_up close_fd
clean_up-IsSound i s m ne v =
    let open_ : s.fds i ≡ true = ap (λ f. f i) (sym v.same) ∙ m in
    let set = put i false s.master_set in
    let listening : set s.listen_sd ≡ true = ground (arith, v.listening) in
    let kept : (x : ℕ) → suc i ≤ x → s.master_set x ≡ true → set x ≡ true =
      λ x le h. ground arith in
    let within : (x : ℕ) → set x ≡ true → x ≤ s.max_sd = λ x h. ground (arith, v.below x) in
    let closes : (if s.fds i then s.bad_closes else s.bad_closes + 1) ≡ 0 = rw open_ v.closes in
    elim (Bool-cases (i == s.max_sd)) [
      | inl last ↦
          let (top, found, member, low, largest) =
            lower_max_lem set s.max_sd s.listen_sd listening (within s.listen_sd listening) in
          (
            record (close_fd i s) { master_set = set; max_sd = top },
            rw (last, found) refl,
            record {
              same = ap (put i false) v.same;
              listening = listening;
              top = member;
              below = λ x h. largest x h (within x h);
              small = omega (arith, v.small);
              closes = closes;
              echoed = v.echoed;
              inside = v.inside;
            },
            record { stays = kept; listens = refl; time = omega arith },
          )
      | inr other ↦ (
        record (close_fd i s) { master_set = set },
        rw other refl,
        record {
          same = ap (put i false) v.same;
          listening = listening;
          top = ground (arith, v.top);
          below = within;
          small = v.small;
          closes = closes;
          echoed = v.echoed;
          inside = v.inside;
        },
        record { stays = kept; listens = refl; time = omega arith },
      )
    ]
