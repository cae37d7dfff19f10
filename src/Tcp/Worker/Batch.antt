-- ===== src/Tcp/Worker/Batch.antt =====
-- A batch of events: each of a connection of its own, and what it does to the registry when one of
-- them has been handled.
use snet.Prelude.{
  ℕ, ◌%◌, ◌^◌, ◌≡◌, ◌≢◌, refl, sym, ap, ◌∙◌, List, [], ◌∷◌, ◌++◌, some, Bool, true, false, ◌==◌,
  ==_iff, if◌then◌else◌, ◌⊎◌, inl, inr, lookup, nat_key, length, drop, has, has_append, arith,
}
use snet.Tcp.Types.{conn_closed, Conn}
use snet.Tcp.Factory.{Factory, IsFactory, set_conn}
use snet.Tcp.Closing.{Ends}
use snet.Tcp.Worker.{Ready}
use snet.Tcp.Worker.Registry.{posted, IsDriven, IsServing, drop-log, Posts-has}

module _ (place : ℕ → ℕ) where
  -- No event of the list is of the connection `p`.
  abbrev pub IsFresh : ℕ → List Ready → Type 0
  IsFresh p [] = Unit
  IsFresh p (r ∷ rs) = (place r.data_ ≢ p) × IsFresh p rs

  -- Events of connections of the map, one each. Their addresses are not null and do not end in the
  -- descriptor of the timer.
  abbrev pub IsBatch : ℕ → List (ℕ × ℕ) → List Ready → Type 0
  IsBatch timer_fd map [] = Unit
  IsBatch timer_fd map (r ∷ rs) =
      (r.data_ ≢ 0)
      × (r.data_ % 2 ^ 32 ≢ timer_fd)
      × ((cid : ℕ) × (lookup cid map ≡ some (place r.data_)))
      × IsFresh (place r.data_) rs
      × IsBatch timer_fd map rs

  -- The connections of events that have not been handled are not closed.
  abbrev pub IsAwake : Factory → List Ready → Type 0
  IsAwake f [] = Unit
  IsAwake f (r ∷ rs) = ((f.conns (place r.data_)).status ≢ conn_closed) × IsAwake f rs

  pub set_conn-IsAwake :
      (p : ℕ) (c : Conn) (f : Factory) (rs : List Ready)
      → IsFresh p rs
      → IsAwake f rs
      → IsAwake (set_conn p c f) rs
  set_conn-IsAwake p c f [] fresh awake = awake
  set_conn-IsAwake p c f (r ∷ rs) (ne, fresh) (here, awake) =
      let other : (place r.data_ == p) ≡ false = ground arith in
      (rw other here, set_conn-IsAwake p c f rs fresh awake)

by_test :
    (P : Conn → Type 0) (b : Bool) (c d : Conn)
    → (b ≡ true → P c)
    → (b ≡ false → P d)
    → P (if b then c else d)
by_test P true c d h k = h refl
by_test P false c d h k = k refl

-- A connection that came out of `process_event`, put back where it was.
pub set_conn-IsServing :
    (tasks : List ℕ) (cid p : ℕ) (c : Conn) (f : Factory)
    → IsServing tasks f
    → lookup cid f.connection_map ≡ some p
    → IsDriven c
    → Ends (f.conns p) c
    → IsServing (tasks ++ posted (drop (length (f.conns p).log) c.log)) (set_conn p c f)
unfolding IsFactory
set_conn-IsServing tasks cid p c f v here driven ends =
    let (small, id, known) = v.registry cid p here in
    let calls : drop (length (f.conns p).log) c.log ≡ ends.suffix =
      ap (drop (length (f.conns p).log)) ends.grows ∙ drop-log (f.conns p).log ends.suffix in
    let new = posted (drop (length (f.conns p).log) c.log) in
    record {
      registry = λ i q e.
          let (within, same, old) = v.registry i q e in
          (
            within,
            by_test (λ x. x.conn_id ≡ i) (q == p) c (f.conns q)
                (λ eq. ends.id ∙ ap (λ j. (f.conns j).conn_id) (sym ((==_iff q p).0 eq)) ∙ same)
                (λ ne. same),
            old,
          );
      driven =
          λ i q e. by_test IsDriven (q == p) c (f.conns q) (λ eq. driven) (λ ne. v.driven i q e);
      not_closed = λ i q e.
          by_test (λ x. (x.status ≢ conn_closed) ⊎ (has i (tasks ++ new) ≡ true)) (q == p) c
            (f.conns q)
            (λ eq.
              let (within, same, old) = v.registry i q e in
              let id_of : (f.conns p).conn_id ≡ i =
                ap (λ j. (f.conns j).conn_id) (sym ((==_iff q p).0 eq)) ∙ same in
              elim ends.open_or_posted [
                | inl h ↦ inl h
                | inr asked ↦
                    let listed : has (f.conns p).conn_id new ≡ true =
                      ap (λ t. has (f.conns p).conn_id (posted t)) calls
                      ∙ Posts-has (f.conns p).conn_id ends.suffix asked in
                    let there : has i new ≡ true = ap (λ j. has j new) (sym id_of) ∙ listed in
                    inr (ground (arith, has_append i tasks new))
              ])
            (λ ne. elim (v.not_closed i q e) [
              | inl h ↦ inl h
              | inr h ↦ inr (ground (arith, has_append i tasks new))
            ]);
    }
