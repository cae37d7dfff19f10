-- ===== src/Tcp/Closing.antt =====
-- `process_event` of a TcpConnection that is not to be connected again: if it closes, it asks its
-- worker to have the factory forget it.
use mathlib.Core.Path.{subst}
use mathlib.Core.Option
use snet.Prelude.{
  ℕ, suc, ◌+◌, ◌≤◌, ◌≡◌, ◌≢◌, refl, sym, ap, ◌∙◌, minus_one, List, [], ◌∷◌, ◌++◌, append_assoc,
  some, Bool, true, false, if◌then◌else◌, Bool-cases, inl, inr, ◌⊎◌, arith, length,
}
use snet.Tcp.Types.{ConnStatus, conn_closed, NetEvent, Events, Effect, Conn, Kernel, Handler}
use snet.Tcp.Connection.{status_is_closing, has_sd, log_effect, read_buffer_size, close, do_send}
use snet.Tcp.Input.{do_read}
use snet.Tcp.Lifecycle.{when, raise, on_ready, release, do_close, settle, process_event}
use snet.Tcp.Sending.{TakesSome}
use snet.Tcp.Reader.{IsReader, RunsDry, on_ready-position, settle-position}
use snet.Tcp.SendEnd.{do_send-position, do_send-one}
use snet.Tcp.Ending.{calls_left, do_read-Returns}
use snet.Tcp.Keeps.{
  Keeps, Keeps-refl, Keeps-trans, if-Keeps, keep-fields, close-Keeps, log_effect-Keeps,
}
use snet.Tcp.Reading.{IsQuiet, raise-Keeps, on_ready-Keeps, read_when-Keeps, send_when-Keeps}

-- Among the calls is a `post_task` that has the factory forget the connection.
pub record Posts (id : ℕ) (calls : List Effect) : Type 0 where
  pub before : List Effect
  pub behind : List Effect
  pub split : calls ≡ before ++ (Effect.post_remove id ∷ behind)

-- What `process_event` makes of a connection: the same one, which is not closed or is to be forgotten.
pub record Ends (c c' : Conn) : Type 0 where
  pub id : c'.conn_id ≡ c.conn_id
  pub factory : c'.has_factory ≡ c.has_factory
  pub reconnect : c'.need_reconnect ≡ c.need_reconnect
  pub suffix : List Effect
  pub grows : c'.log ≡ c.log ++ suffix
  pub open_or_posted : (c'.status ≢ conn_closed) ⊎ Posts c.conn_id suffix

Keeps-Ends : {c c' : Conn} → c.status ≢ conn_closed → Keeps c c' → Ends c c'
Keeps-Ends h p = record {
  id = p.id;
  factory = p.factory;
  reconnect = p.reconnect;
  suffix = p.suffix;
  grows = p.grows;
  open_or_posted = inl (p.not_closed h);
}

Posts-behind :
    {id : ℕ} {calls : List Effect} (first : List Effect)
    → Posts id calls
    → Posts id (first ++ calls)
Posts-behind first p = record {
  before = first ++ p.before;
  behind = p.behind;
  split = ap (λ t. first ++ t) p.split ∙ sym (append_assoc first p.before _);
}

-- Steps before the end, whatever the status.
pub Ends-before : {c d e : Conn} → Keeps c d → Ends d e → Ends c e
Ends-before {c} {d} {e} p q = record {
  id = q.id ∙ p.id;
  factory = q.factory ∙ p.factory;
  reconnect = q.reconnect ∙ p.reconnect;
  suffix = p.suffix ++ q.suffix;
  grows = q.grows ∙ ap (λ t. t ++ q.suffix) p.grows ∙ append_assoc c.log p.suffix q.suffix;
  open_or_posted = elim q.open_or_posted [
    | inl h ↦ inl h
    | inr posted ↦
        inr (subst (λ n. Posts n (p.suffix ++ q.suffix)) p.id (Posts-behind p.suffix posted))
  ];
}

taken : {b : Bool} (c d : Conn) → b ≡ true → (if b then c else d) ≡ c
taken c d e = ap (λ t. if t then c else d) e

skipped : {b : Bool} (c d : Conn) → b ≡ false → (if b then c else d) ≡ d
skipped c d e = ap (λ t. if t then c else d) e

-- `::close(conn_sd); conn_sd = -1;` where there is a descriptor.
abbrev shut_sd : Conn → Conn
shut_sd c =
    if has_sd c
    then record (log_effect (Effect.close_fd c.conn_sd) c) { conn_sd = minus_one }
    else c

shut_sd-Keeps : (c : Conn) → Keeps c (shut_sd c)
shut_sd-Keeps c =
    if-Keeps (has_sd c)
      (Keeps-trans (log_effect-Keeps (Effect.close_fd c.conn_sd) c)
        (keep-fields (log_effect (Effect.close_fd c.conn_sd) c) _ refl refl refl refl refl))
      (Keeps-refl c)

post_remove-Ends : (c : Conn) → Ends c (log_effect (Effect.post_remove c.conn_id) c)
post_remove-Ends c = record {
  id = refl;
  factory = refl;
  reconnect = refl;
  suffix = Effect.post_remove c.conn_id ∷ [];
  grows = refl;
  open_or_posted = inr (record { before = []; behind = []; split = refl });
}

module _ {handler : Handler} (quiet : IsQuiet handler) where
  release_lem :
      (c : Conn)
      → c.need_reconnect ≡ false
      → c.has_factory ≡ true
      → release handler c ≡ log_effect (Effect.post_remove (shut_sd c).conn_id) (shut_sd c)
  unfolding release
  release_lem c no_more owned =
      let still : (shut_sd c).has_factory ≡ true = (shut_sd-Keeps c).factory ∙ owned in
      skipped _ _ no_more ∙ taken _ _ still

  release-Ends :
      (c : Conn) → c.need_reconnect ≡ false → c.has_factory ≡ true → Ends c (release handler c)
  release-Ends c no_more owned =
      subst (Ends c) (sym (release_lem c no_more owned))
        (Ends-before (shut_sd-Keeps c) (post_remove-Ends (shut_sd c)))

  unmarked-Ends : {c d : Conn} (s : ConnStatus) → Ends (record c { status = s }) d → Ends c d
  unmarked-Ends s p = record {
    id = p.id;
    factory = p.factory;
    reconnect = p.reconnect;
    suffix = p.suffix;
    grows = p.grows;
    open_or_posted = p.open_or_posted;
  }

  do_close-Ends :
      (c : Conn)
      → c.status ≢ conn_closed
      → c.need_reconnect ≡ false
      → c.has_factory ≡ true
      → Ends c (do_close handler c)
  unfolding do_close
  do_close-Ends c not_closed no_more owned = elim (Bool-cases (status_is_closing c.status)) [
    | inr other ↦ simp other (Keeps-Ends not_closed (Keeps-refl c))
    | inl closing ↦
        let marked = record c { status = conn_closed } in
        let c' = if c.has_worker then log_effect (Effect.del_event c.conn_sd) marked else marked in
        let raised : Keeps marked (raise handler NetEvent.disconnect c') =
          Keeps-trans
            (if-Keeps c.has_worker (log_effect-Keeps (Effect.del_event c.conn_sd) marked)
              (Keeps-refl marked))
            (raise-Keeps quiet NetEvent.disconnect c') in
        let d = raise handler NetEvent.disconnect c' in
        simp closing (
          unmarked-Ends conn_closed (
            Ends-before raised
              (release-Ends d (raised.reconnect ∙ no_more) (raised.factory ∙ owned))))
  ]

  pub settle-Ends :
      (err : Bool) (c : Conn)
      → c.status ≢ conn_closed
      → c.need_reconnect ≡ false
      → c.has_factory ≡ true
      → Ends c (settle handler err c)
  unfolding settle
  settle-Ends false c not_closed no_more owned = do_close-Ends c not_closed no_more owned
  settle-Ends true c not_closed no_more owned =
      let k = close-Keeps c in
      Ends-before k (
        do_close-Ends (close c) (k.not_closed not_closed) (k.reconnect ∙ no_more)
          (k.factory ∙ owned))

  -- What `process_event` comes to with the fuel `enough`, and with more.
  pub record Comes (kernel : Kernel) (evts : Events) (c : Conn) : Type 0 where
    pub enough : ℕ
    pub conn : Conn
    pub ran : (more : ℕ) → process_event handler kernel (enough + more) evts c ≡ some conn
    pub ends : Ends c conn
    pub fits : conn.read_pos ≤ read_buffer_size

  read_when-one :
      {kernel : Kernel} {last : ℕ} (reader : IsReader handler) (dry : RunsDry kernel last)
      (flag : Bool) (c : Conn)
      → c.read_pos ≤ read_buffer_size
      → (c' : Conn) × (enough : ℕ) × ((fuel : ℕ)
          → enough ≤ fuel
          → when flag (λ x. Option.map (λ r. r.1) (do_read handler kernel fuel x)) c ≡ some c')
        × (c'.read_pos ≤ read_buffer_size)
  read_when-one reader dry false c fits = (c, 0, λ fuel h. refl, fits)
  read_when-one reader dry true c fits =
      let k = suc (calls_left reader dry c) in
      let r = do_read-Returns reader dry k c fits (omega arith) in
      (r.conn, suc k, λ fuel h. ap (Option.map (λ r. r.1)) (r.ran fuel (omega arith)), r.fits)

  send_when-one :
      (kernel : Kernel) (flag : Bool) (c : Conn)
      → TakesSome kernel
      → (c' : Conn) × (enough : ℕ) × ((fuel : ℕ)
          → enough ≤ fuel
          → when flag (do_send kernel fuel) c ≡ some c')
        × (c'.read_pos ≡ c.read_pos)
  send_when-one kernel false c takes = (c, 0, λ fuel h. refl, refl)
  send_when-one kernel true c takes =
      let (c', sent) = do_send-one kernel c takes in
      (
        c',
        suc (length c.send_buffer),
        λ fuel h. sent fuel (omega arith),
        do_send-position kernel (suc (length c.send_buffer)) c c' (sent _ (omega arith)),
      )

  -- `process_event` ends, and a connection that is not closed, belongs to a factory and is not to be
  -- connected again comes out of it with its id, and is not closed or has asked its worker to have
  -- the factory forget it. Its class leaves its identity and its input alone, does not mark it as
  -- closed and takes something off a full input buffer; the kernel takes some of what it is given,
  -- stores what there is room for, and has nothing more to read from some call on.
  pub process_event-Ends :
      {kernel : Kernel} {last : ℕ} (reader : IsReader handler) (dry : RunsDry kernel last)
      (takes : TakesSome kernel) (evts : Events) (c : Conn)
      → c.status ≢ conn_closed
      → c.need_reconnect ≡ false
      → c.has_factory ≡ true
      → c.read_pos ≤ read_buffer_size
      → Comes kernel evts c
  unfolding process_event
  process_event-Ends {kernel} reader dry takes evts c not_closed no_more owned fits =
      let c₀ = on_ready handler c in
      let (c₁, n, e₁, fits₁) =
        read_when-one reader dry evts.in_ c₀ (ground (arith, on_ready-position reader c)) in
      let (c₂, m, e₂, same) = send_when-one kernel evts.out c₁ takes in
      let k = Keeps-trans (on_ready-Keeps quiet c) (
        Keeps-trans (read_when-Keeps quiet kernel evts.in_ n c₀ c₁ (e₁ n (omega arith)))
          (send_when-Keeps quiet kernel evts.out m c₁ c₂ (e₂ m (omega arith)))) in
      record {
        enough = n + m;
        conn = settle handler evts.err c₂;
        ran = λ more. rw (e₁ (n + m + more) (omega arith), e₂ (n + m + more) (omega arith)) refl;
        ends = Ends-before k (
            settle-Ends evts.err c₂ (k.not_closed not_closed) (k.reconnect ∙ no_more)
              (k.factory ∙ owned));
        fits = omega (arith, settle-position reader evts.err c₂, same, fits₁);
      }
