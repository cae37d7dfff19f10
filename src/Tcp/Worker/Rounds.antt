-- ===== src/Tcp/Worker/Rounds.antt =====
-- A round of the worker that drives the connections of a factory.
use mathlib.Core.Path.{subst}
use snet.Prelude.{
  ℕ, ◌+◌, ◌-◌, ◌%◌, ◌^◌, ◌≤◌, ◌≡◌, ◌≢◌, refl, sym, ap, ◌∙◌, List, [], ◌∷◌, ◌++◌, some, ◌>>=◌, Bool,
  false, ◌==◌, inl, inr, lookup, nat_key, length, drop, arith,
}
use snet.Timer.MinHeap.{StdHeap}
use snet.Timer.HeapTimer.{TimerEnv}
use snet.Tcp.Types.{conn_closed, Conn, Kernel, Handler}
use snet.Tcp.Factory.{Factory, set_conn}
use snet.Tcp.Lifecycle.{process_event}
use snet.Tcp.Sending.{TakesSome}
use snet.Tcp.Reader.{IsReader, RunsDry}
use snet.Tcp.Reading.{IsQuiet}
use snet.Tcp.Closing.{Ends, process_event-Ends}
use snet.Tcp.Worker.{
  Ready, Worker, Around, on_handler, on_event, on_events, perform_all, run_tasks, round, Waited,
}
use snet.Tcp.Worker.Registry.{
  posted, conn_event, conn_around, IsDriven, IsServing, forget_all, forget_all-IsServing,
}
use snet.Tcp.Worker.Batch.{IsBatch, IsAwake, set_conn-IsAwake, set_conn-IsServing}

module _ {handler : Handler} (quiet : IsQuiet handler) (reader : IsReader handler) {kernel : Kernel}
    {last : ℕ} (dry : RunsDry kernel last) (takes : TakesSome kernel) (place : ℕ → ℕ)
    (std : StdHeap) (env : TimerEnv) (set_done ctl_done : Bool) where
  abbrev around : Around Factory ℕ
  around = conn_around handler kernel place std env set_done ctl_done

  -- What a batch comes to.
  record Handled (rs : List Ready) (w : Worker Factory ℕ) : Type 0 where
    enough : ℕ
    worker : Worker Factory ℕ
    ran : (fuel : ℕ) → enough ≤ fuel → on_events around fuel rs w ≡ some worker
    serving : IsServing worker.tasks worker.world

  dispatch_lem :
      (fuel : ℕ) (r : Ready) (w : Worker Factory ℕ)
      → r.data_ ≢ 0
      → r.data_ % 2 ^ 32 ≢ w.timer_fd
      → on_event around fuel r w ≡ on_handler around fuel r.data_ r.events w
  unfolding on_event
  dispatch_lem fuel r w ne low =
      let other : (r.data_ % 2 ^ 32 == w.timer_fd) ≡ false = ground arith in
      let some_one : (r.data_ == 0) ≡ false = ground arith in rw (other, some_one) refl

  handled_conn :
      (r : Ready) (cid : ℕ) (w : Worker Factory ℕ)
      → r.data_ ≢ 0
      → r.data_ % 2 ^ 32 ≢ w.timer_fd
      → lookup cid w.world.connection_map ≡ some (place r.data_)
      → IsServing w.tasks w.world
      → (w.world.conns (place r.data_)).status ≢ conn_closed
      → (c : Conn) × (enough : ℕ) × ((fuel : ℕ)
          → enough ≤ fuel
          → on_event around fuel r w
            ≡ some (record w {
              world = set_conn (place r.data_) c w.world;
              tasks = w.tasks ++ posted (drop (length (w.world.conns (place r.data_)).log) c.log);
            }))
        × Ends (w.world.conns (place r.data_)) c
        × IsDriven c
  unfolding on_handler conn_around conn_event
  handled_conn r cid w ne low here v awake =
      let c = w.world.conns (place r.data_) in
      let d = v.driven cid (place r.data_) here in
      let p =
        process_event-Ends quiet reader dry takes r.events c awake d.no_reconnect d.owned d.fits in
      (
        p.conn,
        p.enough,
        λ fuel h.
            let all : process_event handler kernel fuel r.events c ≡ some p.conn =
              ap (λ n. process_event handler kernel n r.events c) (omega arith)
              ∙ p.ran (fuel - p.enough) in
            dispatch_lem fuel r w ne low ∙ rw all refl,
        p.ends,
        record {
          no_reconnect = p.ends.reconnect ∙ d.no_reconnect;
          owned = p.ends.factory ∙ d.owned;
          fits = p.fits;
        },
      )

  on_events-Handled :
      (rs : List Ready) (w : Worker Factory ℕ)
      → IsBatch place w.timer_fd w.world.connection_map rs
      → IsAwake place w.world rs
      → IsServing w.tasks w.world
      → Handled rs w
  unfolding on_events
  on_events-Handled [] w batch awake v = record {
    enough = 0;
    worker = w;
    ran = λ fuel h. refl;
    serving = v;
  }
  on_events-Handled (r ∷ rs) w (ne, low, (cid, here), fresh, batch) (up, awake) v =
      let p = place r.data_ in
      let (c, enough, ran, ends, driven) = handled_conn r cid w ne low here v up in
      let next = record w {
        world = set_conn p c w.world;
        tasks = w.tasks ++ posted (drop (length (w.world.conns p).log) c.log);
      } in
      let rest =
        on_events-Handled rs next batch (set_conn-IsAwake place p c w.world rs fresh awake)
          (set_conn-IsServing w.tasks cid p c w.world v here driven ends) in
      record {
        enough = enough + rest.enough;
        worker = rest.worker;
        ran = λ fuel h.
            ap (λ t. t >>= on_events around fuel rs) (ran fuel (omega arith))
            ∙ rest.ran fuel (omega arith);
        serving = rest.serving;
      }

  perform_all_lem :
      (fuel : ℕ) (tasks : List ℕ) (f : Factory)
      → perform_all around fuel tasks f ≡ forget_all tasks f
  unfolding perform_all forget_all conn_around
  perform_all_lem fuel [] f = refl
  perform_all_lem fuel (cid ∷ tasks) f = perform_all_lem fuel tasks _

  all-IsAwake :
      (rs : List Ready) (w : Worker Factory ℕ)
      → IsBatch place w.timer_fd w.world.connection_map rs
      → IsServing [] w.world
      → IsAwake place w.world rs
  all-IsAwake [] w batch v = tt
  all-IsAwake (r ∷ rs) w (ne, low, (cid, here), fresh, batch) v = (
    elim (v.not_closed cid (place r.data_) here) [ inl h ↦ h | inr h ↦ absurd cc ],
    all-IsAwake rs w batch v,
  )

  -- What a round comes to.
  pub record Served (rs : List Ready) (w : Worker Factory ℕ) : Type 0 where
    pub enough : ℕ
    pub worker : Worker Factory ℕ
    pub ran : (more : ℕ) → round around (enough + more) (Waited.ready rs) w ≡ some worker
    pub serving : IsServing [] worker.world
    pub no_tasks : worker.tasks ≡ []

  -- A round for a batch of events of registered connections ends, and no connection that is then
  -- registered is closed: those that close in the round are out of the factory's map at its end. The
  -- same was so before and no task waits; each connection has one event, at an address that is not
  -- null and does not end in the timer's descriptor.
  pub round-Served :
      (rs : List Ready) (w : Worker Factory ℕ)
      → IsBatch place w.timer_fd w.world.connection_map rs
      → IsServing [] w.world
      → w.tasks ≡ []
      → Served rs w
  unfolding round run_tasks
  round-Served rs w batch v empty =
      let here : IsServing w.tasks w.world = subst (λ t. IsServing t w.world) (sym empty) v in
      let h = on_events-Handled rs w batch (all-IsAwake rs w batch v) here in
      let f = forget_all h.worker.tasks h.worker.world in
      record {
        enough = h.enough;
        worker = record h.worker { world = f; tasks = [] };
        ran = λ more.
            let fuel = h.enough + more in
            ap (λ t. t >>= λ w'. some (run_tasks around fuel w')) (h.ran fuel (omega arith))
            ∙ ap (λ g. some (record h.worker { world = g; tasks = [] }))
                (perform_all_lem fuel h.worker.tasks h.worker.world);
        serving = forget_all-IsServing h.worker.tasks h.worker.world h.serving;
        no_tasks = refl;
      }
