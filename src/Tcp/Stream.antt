-- ===== src/Tcp/Stream.antt =====
-- `process_data` of tcp_connection.h over all the segments of a stream.
use snet.Prelude.{
  ℕ, ◌+◌, ◌≤◌, ◌≡◌, refl, sym, ap, ap₂, ◌∙◌, List, [], ◌∷◌, ◌++◌, Option, none, some, ◌>>=◌, Bool,
  length, concat, Memory, store, load, load-length, load-store, load-store_before, load-append,
  take-append, drop-append, append_assoc, append-nil, arith,
}
use mathlib.Core.Path.{subst}
use snet.Tcp.Types.{Conn, Handler}
use snet.Tcp.Connection.{read_buffer_size}
use snet.Tcp.Input.{process_data}
use snet.Tcp.Framing.{Cut, Cut-cast, IsFraming, deliver, pending, deliver-input}
use snet.Tcp.Segments.{Processed, process_data-Processed}

-- A package at the front stays what it is when more bytes arrive.
pub record IsStable (frame_len : List ℕ → Option ℕ) : Type 0 where
  pub stable :
      (bytes more : List ℕ) (n : ℕ)
      → frame_len bytes ≡ some n
      → (frame_len (bytes ++ more) ≡ some n) × (n ≤ length bytes)

-- The packages of a stream are those of its first part, then those of what was left and the rest.
pub Cut-append :
    {frame_len : List ℕ → Option ℕ} {bytes rest end : List ℕ} {frames frames' : List (List ℕ)}
    (more : List ℕ)
    → IsStable frame_len
    → Cut frame_len bytes frames rest
    → Cut frame_len (rest ++ more) frames' end
    → Cut frame_len (bytes ++ more) (frames ++ frames') end
Cut-append more s (Cut.done bytes e) next = next
Cut-append more s (Cut.more {bytes = bytes} n e t cut) next =
    let (still, within) = s.stable bytes more n e in
    Cut.more n still (t ∙ sym (take-append n bytes more within))
      (Cut-cast (Cut-append more s cut next) (sym (drop-append n bytes more within)) refl)

pub Cut-rest :
    {frame_len : List ℕ → Option ℕ} {bytes rest : List ℕ} {frames : List (List ℕ)}
    → Cut frame_len bytes frames rest
    → frame_len rest ≡ none
Cut-rest (Cut.done bytes e) = e
Cut-rest (Cut.more n e t cut) = Cut-rest cut

pub deliver-append :
    (handler : Handler) (frames more : List (List ℕ)) (c : Conn)
    → deliver handler (frames ++ more) c ≡ deliver handler more (deliver handler frames c)
unfolding deliver
deliver-append handler [] more c = refl
deliver-append handler (frame ∷ frames) more c =
    deliver-append handler frames more (handler.handle_data frame c)

stored :
    (c : Conn) (segment : List ℕ)
    → load (store c.read_buffer c.read_pos segment) (0 + c.read_pos) (length segment) ≡ segment
stored c segment =
    ap (λ i. load (store c.read_buffer c.read_pos segment) i (length segment)) (omega arith)
    ∙ load-store c.read_buffer c.read_pos segment

module _ (handler : Handler) where
  -- Segments that arrive one after the other, each stored behind what waits and processed.
  pub feed : List (List ℕ) → Conn → Option Conn
  feed [] c = some c
  feed (segment ∷ segments) c =
      process_data handler (length segment)
        (record c { read_buffer = store c.read_buffer c.read_pos segment })
      >>= λ r. feed segments r.1

  -- Each segment fits into the room that is left when it arrives, which is what `recv` is told.
  unfoldable pub HasRoom : List (List ℕ) → Conn → Type 0
  HasRoom [] c = Unit
  HasRoom (segment ∷ segments) c =
      (c.read_pos + length segment ≤ read_buffer_size)
      × ((c' : Conn) (more : Bool)
          → process_data handler (length segment)
              (record c { read_buffer = store c.read_buffer c.read_pos segment })
            ≡ some (more, c')
          → HasRoom segments c')

module _ {handler : Handler} {frame_len : List ℕ → Option ℕ} (f : IsFraming handler frame_len)
    (s : IsStable frame_len) where
  pub record Fed (bytes : List ℕ) (c : Conn) (run : Option Conn) : Type 0 where
    pub frames : List (List ℕ)
    pub rest : List ℕ
    pub memory : Memory
    pub cut : Cut frame_len bytes frames rest
    pub keeps : load memory 0 (length rest) ≡ rest
    pub result :
        run
        ≡ some (record (deliver handler frames c) { read_buffer = memory; read_pos = length rest })

  Fed-more :
      (bytes more : List ℕ) (c : Conn) (next : Conn → Option Conn) {run : Option (Bool × Conn)}
      → (p : Processed f bytes c run)
      → Fed
          (p.rest ++ more)
          (record (deliver handler p.frames c) { read_buffer = p.memory; read_pos = length p.rest })
          (next (record (deliver handler p.frames c) {
            read_buffer = p.memory;
            read_pos = length p.rest;
          }))
      → Fed (bytes ++ more) c (run >>= λ r. next r.1)
  Fed-more bytes more c next p r =
      let d = deliver handler p.frames c in
      record {
        frames = p.frames ++ r.frames;
        rest = r.rest;
        memory = r.memory;
        cut = Cut-append more s p.cut r.cut;
        keeps = r.keeps;
        result =
            ap (λ t. t >>= λ r. next r.1) p.result
            ∙ r.result
            ∙ ap
                (λ (x : Conn). some (record x { read_buffer = r.memory; read_pos = length r.rest }))
                (deliver-input f r.frames d p.memory (length p.rest))
            ∙ ap
                (λ (x : Conn). some (record x { read_buffer = r.memory; read_pos = length r.rest }))
                (sym (deliver-append handler p.frames r.frames c));
      }

  Fed-input :
      (bytes : List ℕ) (c : Conn) (m : Memory) {run : Option Conn}
      → Fed bytes (record c { read_buffer = m }) run
      → Fed bytes c run
  Fed-input bytes c m r = record {
    frames = r.frames;
    rest = r.rest;
    memory = r.memory;
    cut = r.cut;
    keeps = r.keeps;
    result =
        r.result
        ∙ ap (λ (x : Conn). some (record x { read_buffer = r.memory; read_pos = length r.rest }))
            (deliver-input f r.frames c m c.read_pos);
  }

  -- For a class whose `handle_package` cuts a stream as `frame_len` says, and where packages stay
  -- what they are when more bytes arrive, the segments make no difference: if no whole package
  -- waits at first and there is room for each segment, the packages of the whole stream are
  -- delivered, in order and each once, and the bytes of a last package that is not whole are kept.
  pub feed-Fed :
      (segments : List (List ℕ)) (c : Conn)
      → frame_len (pending c) ≡ none
      → HasRoom handler segments c
      → Fed (pending c ++ concat segments) c (feed handler segments c)
  unfolding feed HasRoom deliver
  feed-Fed [] c short room = record {
    frames = [];
    rest = pending c;
    memory = c.read_buffer;
    cut = Cut-cast (Cut.done (pending c) short) (sym (append-nil (pending c))) refl;
    keeps = ap (load c.read_buffer 0) (load-length c.read_buffer 0 c.read_pos);
    result =
        ap (λ n. some (record c { read_pos = n })) (sym (load-length c.read_buffer 0 c.read_pos));
  }
  feed-Fed (segment ∷ segments) c short room =
      let m = store c.read_buffer c.read_pos segment in
      let c₀ = record c { read_buffer = m } in
      let p = process_data-Processed f (length segment) c₀ room.0 in
      let c₁ = record (deliver handler p.frames c₀) {
        read_buffer = p.memory;
        read_pos = length p.rest;
      } in
      let left : pending c₁ ≡ p.rest = p.keeps in
      let bytes : load m 0 (c.read_pos + length segment) ≡ pending c ++ segment =
        load-append m 0 c.read_pos (length segment)
        ∙ ap₂ ◌++◌ (load-store_before c.read_buffer 0 c.read_pos c.read_pos segment (omega arith))
            (stored c segment) in
      let r = feed-Fed segments c₁ (ap frame_len left ∙ Cut-rest p.cut) (room.1 c₁ _ p.result) in
      Fed-input _ c m (
        subst (λ b. Fed b c₀ (feed handler (segment ∷ segments) c))
          (ap (λ b. b ++ concat segments) bytes
            ∙ append_assoc (pending c) segment (concat segments))
          (Fed-more _ (concat segments) c₀ (feed handler segments) p
            (subst (λ b. Fed (b ++ concat segments) c₁ (feed handler segments c₁)) left r)))
