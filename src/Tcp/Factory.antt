-- ===== src/Tcp/Factory.antt =====
-- TcpFactory of include/tcp/tcp_factory.h, and the constructor of TcpConnection. Connections stand
-- in a store and are known by their place in it, as the shared pointers of the source are.
use snet.Prelude.{
  ℕ, ◌+◌, ◌%◌, ◌^◌, ◌≤◌, ◌<◌, ◌≡◌, minus_one, List, [], Option, none, some, Bool, true, false,
  Memory, ◌==◌, if◌then◌else◌, lookup, insert, erase, lookup-insert, lookup-erase, nat_key, inl,
  inr, Option-cases, arith,
}
use snet.Tcp.Types.{Conn, conn_idle}

-- The factory's map, and the static `connection_index`.
pub record Factory : Type 0 where
  pub conns : ℕ → Conn
  pub next_conn : ℕ
  pub connection_map : List (ℕ × ℕ)
  pub connection_index : ℕ

-- The functions that a user of the factory may set, and its virtual methods.
pub record Hooks : Type 0 where
  pub connection_creator : Option (Factory → ℕ × Factory)
  pub connection_releaser : Option (ℕ → ℕ → Factory → Factory)
  pub on_create : ℕ → ℕ → Factory → Factory
  pub on_release : ℕ → ℕ → Factory → Factory

-- `TcpConnection()`, for an id and what the memory of its input buffer holds.
unfoldable pub new_conn : ℕ → Memory → Conn
new_conn id garbage = record {
  status = conn_idle;
  conn_sd = minus_one;
  need_reconnect = false;
  is_passive = true;
  has_worker = false;
  has_factory = false;
  conn_id = id;
  remote_host = [];
  remote_port = 0;
  epoll_events = record { et = false; in_ = false; out = false; err = false };
  send_buffer = [];
  read_buffer = garbage;
  read_pos = 0;
  wire = [];
  sends = 0;
  recvs = 0;
  log = [];
}

abbrev pub set_conn : ℕ → Conn → Factory → Factory
set_conn p c f = record f { conns = λ q. if q == p then c else f.conns q }

-- `make_shared<Connection>()`: the place of the new connection, and the factory.
unfoldable pub make_conn : Memory → Factory → ℕ × Factory
unfolding new_conn
make_conn garbage f =
    let id = (f.connection_index + 1) % 2 ^ 64 in
    (
      f.next_conn,
      set_conn f.next_conn (new_conn id garbage)
          (record f { next_conn = f.next_conn + 1; connection_index = id }),
    )

unfoldable pub add_connection : ℕ → ℕ → Factory → Factory
add_connection cid p f = record f { connection_map = insert cid p f.connection_map }

-- `remove_connection`, with what it returns.
unfoldable pub remove_connection : ℕ → Factory → ℕ × Factory
remove_connection cid f = (
  elim (lookup cid f.connection_map) [ none ↦ 0 | some _ ↦ 1 ],
  record f { connection_map = erase cid f.connection_map },
)

-- `find_connection`; `none` is the null pointer.
unfoldable pub find_connection : ℕ → Factory → Option ℕ
find_connection cid f = lookup cid f.connection_map

module _ (hooks : Hooks) where
  -- `create`: the place of the connection, and the factory.
  unfoldable pub create : Memory → Bool → Factory → ℕ × Factory
  unfolding make_conn add_connection
  create garbage passive f =
      let (p, f₁) = elim hooks.connection_creator as (λ _. ℕ × Factory) [
        | none ↦ make_conn garbage f
        | some creator ↦ creator f
      ] in
      let cid = (f₁.conns p).conn_id in
      let f₂ = set_conn p (record (f₁.conns p) { is_passive = passive; has_factory = true }) f₁ in
      (p, add_connection cid p (hooks.on_create cid p f₂))

  unfoldable pub release : ℕ → Factory → Factory
  unfolding remove_connection
  release p f =
      let cid = (f.conns p).conn_id in
      let f' = elim hooks.connection_releaser as (λ _. Factory) [
        | none ↦ hooks.on_release cid p f
        | some releaser ↦ releaser cid p f
      ] in
      (remove_connection (f'.conns p).conn_id f').1

-- Every entry is a connection that was made and has the entry's id, and no id is ahead of the count.
unfoldable pub IsFactory : Factory → Type 0
IsFactory f =
    (cid p : ℕ)
    → lookup cid f.connection_map ≡ some p
    → (p < f.next_conn) × ((f.conns p).conn_id ≡ cid) × (cid ≤ f.connection_index)

-- TcpFactory's own methods, with nothing set.
unfoldable pub default_hooks : Hooks
default_hooks = record {
  connection_creator = none;
  connection_releaser = none;
  on_create = λ cid p f. f;
  on_release = λ cid p f. f;
}

-- With nothing set by the user, `create` makes a connection with an id that the map does not have,
-- and `find_connection` finds it by that id until `release`; both keep the map well formed. The
-- count of connections has not wrapped.
pub create-IsFactory :
    (garbage : Memory) (passive : Bool) (f : Factory)
    → IsFactory f
    → f.connection_index + 1 < 2 ^ 64
    → let (p, f') = create default_hooks garbage passive f in
      let cid = (f'.conns p).conn_id in
      IsFactory f'
      × (find_connection cid f ≡ none)
      × (find_connection cid f' ≡ some p)
      × (find_connection cid (release default_hooks p f') ≡ none)
      × IsFactory (release default_hooks p f')
unfolding create find_connection release default_hooks IsFactory
create-IsFactory garbage passive f v small =
    let id = (f.connection_index + 1) % 2 ^ 64 in
    let q = f.next_conn in
    let gone : lookup id f.connection_map ≡ none =
      elim (Option-cases (lookup id f.connection_map)) [
        | inl gone ↦ gone
        | inr (p, found) ↦ absurd (omega (arith, v id p found))
      ] in
    let added = insert id q f.connection_map in
    (
      λ cid p found. ground (arith, lookup-insert id cid q f.connection_map, v cid p),
      ground (arith, gone),
      ground (arith, lookup-insert id id q f.connection_map),
      ground (arith, lookup-erase id id added),
      λ cid p found.
          ground
            (arith, lookup-erase id cid added, lookup-insert id cid q f.connection_map, v cid p),
    )
