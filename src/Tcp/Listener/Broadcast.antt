-- ===== src/Tcp/Listener/Broadcast.antt =====
-- `broadcast` of TcpListener of include/tcp/tcp_listener.h.
use mathlib.Core.Path.{subst}
use snet.Prelude.{
  ℕ, suc, ◌^◌, ◌<◌, ◌≡◌, ◌≢◌, refl, sym, ap, ◌∙◌, List, [], ◌∷◌, ◌++◌, append-nil, Option, some,
  ◌>>=◌, true, false, ◌==◌, inl, inr, Bool-cases, length, concat, ℤ, minus_one, ◌⊎◌, arith,
}
use snet.Tcp.Types.{Conn, Kernel}
use snet.Tcp.Connection.{is_open, msend}
use snet.Tcp.Sending.{TakesSome, stream, IsSettled, msend_lem}
use snet.Tcp.Factory.{Factory, set_conn}
use snet.Tcp.Listener.{Listener}

module _ (kernel : Kernel) (msg : List ℕ) where
  -- The loop over the map's entries, in the order in which it is traversed. The fuel of a `msend` is
  -- one more than the bytes that can wait.
  unfoldable pub broadcast_to : List (ℕ × ℕ) → Factory → Option Factory
  broadcast_to [] f = some f
  broadcast_to ((cid, p) ∷ entries) f = do
    (sent, c) ←
        msend kernel (suc (length ((f.conns p).send_buffer ++ concat (msg ∷ [])))) (msg ∷ [])
          (f.conns p)
    broadcast_to entries (set_conn p c f)

  -- `broadcast`; `none` means that a loop ran out of fuel.
  unfoldable pub broadcast : Listener → Option Listener
  unfolding broadcast_to
  broadcast l = do
    f ← broadcast_to l.factory.connection_map l.factory
    some (record l { factory = f })

-- No entry is of the connection `p`.
abbrev pub Elsewhere : ℕ → List (ℕ × ℕ) → Type 0
Elsewhere p [] = Unit
Elsewhere p ((cid, q) ∷ entries) = (q ≢ p) × Elsewhere p entries

-- Each entry has a connection of its own.
abbrev pub IsApart : List (ℕ × ℕ) → Type 0
IsApart [] = Unit
IsApart ((cid, p) ∷ entries) = Elsewhere p entries × IsApart entries

module _ (msg : List ℕ) where
  -- The connections that are open are settled and have room for the message.
  abbrev pub HasRoom : Factory → List (ℕ × ℕ) → Type 0
  HasRoom f [] = Unit
  HasRoom f ((cid, p) ∷ entries) =
      ((is_open (f.conns p) ≡ false)
        ⊎ (IsSettled (f.conns p)
            × (length ((f.conns p).send_buffer ++ concat (msg ∷ [])) < 2 ^ 32)))
      × HasRoom f entries

  -- An open connection was given the message to send, behind what it had; another one is as it was.
  abbrev pub Told : Conn → Conn → Type 0
  Told c c' =
      ((is_open c ≡ true) × (stream c' ≡ stream c ++ msg) × IsSettled c')
      ⊎ ((is_open c ≡ false) × (c' ≡ c))

  abbrev pub AllTold : Factory → Factory → List (ℕ × ℕ) → Type 0
  AllTold f f' [] = Unit
  AllTold f f' ((cid, p) ∷ entries) = Told (f.conns p) (f'.conns p) × AllTold f f' entries

set_conn-other : (p q : ℕ) (c : Conn) (f : Factory) → q ≢ p → (set_conn p c f).conns q ≡ f.conns q
set_conn-other p q c f ne = let other : (q == p) ≡ false = ground arith in rw other refl

HasRoom-set_conn :
    (msg : List ℕ) (p : ℕ) (c : Conn) (f : Factory) (entries : List (ℕ × ℕ))
    → Elsewhere p entries
    → HasRoom msg f entries
    → HasRoom msg (set_conn p c f) entries
HasRoom-set_conn msg p c f [] away room = tt
HasRoom-set_conn msg p c f ((cid, q) ∷ entries) (ne, away) (here, room) = (
  subst
      (λ x.
        (is_open x ≡ false)
        ⊎ (IsSettled x × (length (x.send_buffer ++ concat (msg ∷ [])) < 2 ^ 32)))
      (sym (set_conn-other p q c f ne)) here,
  HasRoom-set_conn msg p c f entries away room,
)

AllTold-set_conn :
    (msg : List ℕ) (p : ℕ) (c : Conn) (f f' : Factory) (entries : List (ℕ × ℕ))
    → Elsewhere p entries
    → AllTold msg (set_conn p c f) f' entries
    → AllTold msg f f' entries
AllTold-set_conn msg p c f f' [] away told = tt
AllTold-set_conn msg p c f f' ((cid, q) ∷ entries) (ne, away) (here, told) = (
  subst (λ x. Told msg x (f'.conns q)) (set_conn-other p q c f ne) here,
  AllTold-set_conn msg p c f f' entries away told,
)

module _ {kernel : Kernel} (takes : TakesSome kernel) (msg : List ℕ)
    (some_byte : 0 < length msg) where
  closed_msend :
      (c : Conn)
      → is_open c ≡ false
      → msend kernel (suc (length (c.send_buffer ++ concat (msg ∷ [])))) (msg ∷ []) c
        ≡ some (minus_one, c)
  unfolding msend
  closed_msend c shut = rw (msend, shut) refl

  msend-Told :
      (c : Conn)
      → (is_open c ≡ false) ⊎ (IsSettled c × (length (c.send_buffer ++ concat (msg ∷ [])) < 2 ^ 32))
      → (n : ℤ) × (c' : Conn) × (msend kernel
            (suc (length (c.send_buffer ++ concat (msg ∷ []))))
            (msg ∷ [])
            c
          ≡ some (n, c'))
        × Told msg c c'
  msend-Told c room = elim (Bool-cases (is_open c)) [
    | inr shut ↦ (minus_one, c, closed_msend c shut, inr (shut, refl))
    | inl ready ↦ elim room [
      | inl shut ↦ absurd cc
      | inr (settled, small) ↦
          let (n, c', sent, given, after) =
            msend_lem kernel takes (msg ∷ []) c ready settled (some_byte, tt) small in
          (n, c', sent, inl (ready, given ∙ ap (λ t. stream c ++ t) (append-nil msg), after))
    ]
  ]

  broadcast_to_lem :
      (entries : List (ℕ × ℕ)) (f : Factory)
      → IsApart entries
      → HasRoom msg f entries
      → (f' : Factory) × (broadcast_to kernel msg entries f ≡ some f')
        × AllTold msg f f' entries
        × ((p : ℕ) → Elsewhere p entries → f'.conns p ≡ f.conns p)
        × (f'.connection_map ≡ f.connection_map)
  unfolding broadcast_to
  broadcast_to_lem [] f apart room = (f, refl, tt, λ p h. refl, refl)
  broadcast_to_lem ((cid, p) ∷ entries) f (other, apart) (here, room) =
      let (n, c, sent, told) = msend-Told (f.conns p) here in
      let next = set_conn p c f in
      let (f', ran, all, kept, map) =
        broadcast_to_lem entries next apart (HasRoom-set_conn msg p c f entries other room) in
      let same : (p == p) ≡ true = ground arith in
      let placed : next.conns p ≡ c = rw same refl in
      let mine : f'.conns p ≡ c = kept p other ∙ placed in
      (
        f',
        rw sent ran,
        (
          subst (Told msg (f.conns p)) (sym mine) told,
          AllTold-set_conn msg p c f f' entries other all,
        ),
        λ q (ne, away). kept q away ∙ set_conn-other p q c f (λ e. ne (sym e)),
        map,
      )

  -- `broadcast` ends. Of the connections of the map, each one that is open was given the message to
  -- send, once and behind what it had; each other one is as it was. The entries of the map have
  -- different connections, the open ones are settled and have room for the message, which is not
  -- empty, and the kernel takes some of what it is given.
  pub broadcast-AllTold :
      (l : Listener)
      → IsApart l.factory.connection_map
      → HasRoom msg l.factory l.factory.connection_map
      → (l' : Listener) × (broadcast kernel msg l ≡ some l')
        × AllTold msg l.factory l'.factory l.factory.connection_map
        × (l'.factory.connection_map ≡ l.factory.connection_map)
  unfolding broadcast
  broadcast-AllTold l apart room =
      let (f, ran, all, kept, map) =
        broadcast_to_lem l.factory.connection_map l.factory apart room in
      (record l { factory = f }, rw ran refl, all, map)
