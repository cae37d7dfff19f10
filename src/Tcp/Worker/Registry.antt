-- ===== src/Tcp/Worker/Registry.antt =====
-- A worker that drives the connections of a factory: a connection that closes leaves the registry at
-- the end of the round in which it does.
use mathlib.Core.Path.{subst}
use snet.Prelude.{
  ℕ, ◌≤◌, ◌≡◌, ◌≢◌, refl, sym, ap, ◌∙◌, List, [], ◌∷◌, ◌++◌, Option, none, some, ◌>>=◌, Bool, true,
  false, if◌then◌else◌, ◌⊎◌, inl, inr, lookup, lookup-erase, nat_key, length, drop, has, arith,
}
use snet.Timer.MinHeap.{StdHeap}
use snet.Timer.HeapTimer.{TimerEnv}
use snet.Tcp.Types.{conn_closed, Effect, Events, Conn, Kernel, Handler}
use snet.Tcp.Connection.{read_buffer_size}
use snet.Tcp.Factory.{Factory, IsFactory, set_conn, remove_connection}
use snet.Tcp.Lifecycle.{process_event}
use snet.Tcp.Closing.{Posts}
use snet.Tcp.Worker.{Around}

-- The ids that a list of calls asks the factory to forget.
unfoldable pub posted : List Effect → List ℕ
posted [] = []
posted (Effect.post_remove cid ∷ calls) = cid ∷ posted calls
posted (_ ∷ calls) = posted calls

-- What connections do to a factory, for the place of the connection at an address. `post_task` is
-- read off the calls that the connection makes.
unfoldable pub conn_event :
    Handler → Kernel → (ℕ → ℕ) → ℕ → ℕ → Events → Factory → Option (Factory × List ℕ)
unfolding posted
conn_event handler kernel place fuel address evts f =
    let c = f.conns (place address) in
    process_event handler kernel fuel evts c >>= λ c'.
    some (set_conn (place address) c' f, posted (drop (length c.log) c'.log))

unfoldable pub conn_around :
    Handler → Kernel → (ℕ → ℕ) → StdHeap → TimerEnv → Bool → Bool → Around Factory ℕ
unfolding conn_event
conn_around handler kernel place std env set_done ctl_done = record {
  process_event = conn_event handler kernel place;
  perform = λ cid f. (remove_connection cid f).1;
  std = std;
  env = env;
  set_done = set_done;
  ctl_done = ctl_done;
}

-- A connection that can be driven.
pub record IsDriven (c : Conn) : Type 0 where
  pub no_reconnect : c.need_reconnect ≡ false
  pub owned : c.has_factory ≡ true
  pub fits : c.read_pos ≤ read_buffer_size

-- Every registered connection is open for events or about to be forgotten.
pub record IsServing (tasks : List ℕ) (f : Factory) : Type 0 where
  pub registry : IsFactory f
  pub driven : (cid p : ℕ) → lookup cid f.connection_map ≡ some p → IsDriven (f.conns p)
  pub not_closed :
      (cid p : ℕ)
      → lookup cid f.connection_map ≡ some p
      → ((f.conns p).status ≢ conn_closed) ⊎ (has cid tasks ≡ true)

has-posted :
    (cid : ℕ) (before behind : List Effect)
    → has cid (posted (before ++ (Effect.post_remove cid ∷ behind))) ≡ true
unfolding posted
has-posted cid [] behind = ground arith
has-posted cid (Effect.post_remove id ∷ before) behind =
    ground (arith, has-posted cid before behind)
has-posted cid (Effect.mod_event sd evts ∷ before) behind = has-posted cid before behind
has-posted cid (Effect.add_event sd evts ∷ before) behind = has-posted cid before behind
has-posted cid (Effect.del_event sd ∷ before) behind = has-posted cid before behind
has-posted cid (Effect.close_fd sd ∷ before) behind = has-posted cid before behind
has-posted cid (Effect.raised evt ∷ before) behind = has-posted cid before behind
has-posted cid (Effect.session pipe call ∷ before) behind = has-posted cid before behind
has-posted cid (Effect.null_session ∷ before) behind = has-posted cid before behind
has-posted cid (Effect.connect_to sd host port ∷ before) behind = has-posted cid before behind

pub drop-log : {A : Type 0} (xs ys : List A) → drop (length xs) (xs ++ ys) ≡ ys
drop-log [] ys = refl
drop-log (x ∷ xs) ys = drop-log xs ys

pub Posts-has : (cid : ℕ) (calls : List Effect) → Posts cid calls → has cid (posted calls) ≡ true
Posts-has cid calls p = ap (λ t. has cid (posted t)) p.split ∙ has-posted cid p.before p.behind

-- The tasks take their ids out of the map, and change nothing else.
abbrev forget : ℕ → Factory → Factory
forget cid f = (remove_connection cid f).1

unfoldable pub forget_all : List ℕ → Factory → Factory
forget_all [] f = f
forget_all (cid ∷ ids) f = forget_all ids (forget cid f)

lookup-forget_all :
    (i : ℕ) (ids : List ℕ) (f : Factory)
    → lookup i (forget_all ids f).connection_map
      ≡ (if has i ids then none else lookup i f.connection_map)
unfolding forget_all remove_connection
lookup-forget_all i [] f = refl
lookup-forget_all i (cid ∷ ids) f =
    ground (arith, lookup-forget_all i ids (forget cid f), lookup-erase cid i f.connection_map)

forget_all-conns :
    (ids : List ℕ) (f : Factory)
    → ((forget_all ids f).conns ≡ f.conns)
      × ((forget_all ids f).next_conn ≡ f.next_conn)
      × ((forget_all ids f).connection_index ≡ f.connection_index)
unfolding forget_all remove_connection
forget_all-conns [] f = (refl, refl, refl)
forget_all-conns (cid ∷ ids) f = forget_all-conns ids (forget cid f)

pub forget_all-IsServing :
    (tasks : List ℕ) (f : Factory) → IsServing tasks f → IsServing [] (forget_all tasks f)
unfolding IsFactory
forget_all-IsServing tasks f v =
    let (conns, next, index) = forget_all-conns tasks f in
    let was : (cid p : ℕ)
        → lookup cid (forget_all tasks f).connection_map ≡ some p
        → (lookup cid f.connection_map ≡ some p) × (has cid tasks ≡ false) =
      λ cid p e. ground (arith, lookup-forget_all cid tasks f) in
    record {
      registry = λ cid p e.
          let (here, id, small) = v.registry cid p (was cid p e).0 in
          (omega (arith, next), ap (λ g. (g p).conn_id) conns ∙ id, omega (arith, index));
      driven = λ cid p e. subst (λ g. IsDriven (g p)) (sym conns) (v.driven cid p (was cid p e).0);
      not_closed = λ cid p e. elim (v.not_closed cid p (was cid p e).0) [
        | inl h ↦ inl (subst (λ g. (g p).status ≢ conn_closed) (sym conns) h)
        | inr h ↦ absurd (ground (arith, (was cid p e).1))
      ];
    }
