-- ===== src/Tcp/Framing.antt =====
-- `process_data` of tcp_connection.h against a description of packages on lists of bytes: whatever
-- the segments in which the bytes arrive, the handler is given the packages of the whole stream.
use snet.Prelude.{
  ℕ, zero, suc, ◌+◌, ◌-◌, ◌≤◌, ◌<◌, ◌≡◌, pos_part, refl, sym, ap, ap₂, ◌∙◌, List, [], ◌∷◌, Option,
  none, some, true, false, ◌||◌, ◌⊎◌, inl, inr, take, drop, Memory, load, load-shift, ltb, ◌==◌,
  Option-cases, arith,
}
use mathlib.Core.Path.{subst₂}
use snet.Tcp.Types.{Conn, Handler}
use snet.Tcp.Connection.{read_buffer_size}
use snet.Tcp.Input.{from, package_loop}

-- What a stream of bytes falls into: `frame_len` is the size of the package at the front, if it is
-- there whole.
pub data Cut (frame_len : List ℕ → Option ℕ) : List ℕ → List (List ℕ) → List ℕ → Type 0 where
  done : (bytes : List ℕ) → frame_len bytes ≡ none → Cut frame_len bytes [] bytes
  more :
      {bytes frame : List ℕ} {frames : List (List ℕ)} {rest : List ℕ} (n : ℕ)
      → frame_len bytes ≡ some n
      → frame ≡ take n bytes
      → Cut frame_len (drop n bytes) frames rest
      → Cut frame_len bytes (frame ∷ frames) rest

-- `handle_package` of a class, against `frame_len`. It is asked about `r` bytes, but is told a length
-- that may be larger. Its `handle_data` neither reads nor changes the input buffer.
pub record IsFraming (handler : Handler) (frame_len : List ℕ → Option ℕ) : Type 0 where
  pub whole :
      (m : Memory) (len r n : ℕ)
      → r ≤ len
      → len ≤ read_buffer_size
      → frame_len (load m 0 r) ≡ some n
      → (pos_part (handler.handle_package m len) ≡ n) × (0 < n) × (n ≤ r)
  pub partial :
      (m : Memory) (len r : ℕ)
      → r ≤ len
      → len ≤ read_buffer_size
      → frame_len (load m 0 r) ≡ none
      → ((pos_part (handler.handle_package m len) ≡ 0)
          ⊎ (r < pos_part (handler.handle_package m len)))
        × (pos_part (handler.handle_package m len) ≤ read_buffer_size)
  pub independent :
      (frame : List ℕ) (c : Conn) (m : Memory) (p : ℕ)
      → handler.handle_data frame (record c { read_buffer = m; read_pos = p })
        ≡ record (handler.handle_data frame c) { read_buffer = m; read_pos = p }

-- The packages handed to `handle_data` in turn.
unfoldable pub deliver : Handler → List (List ℕ) → Conn → Conn
deliver handler [] c = c
deliver handler (frame ∷ frames) c = deliver handler frames (handler.handle_data frame c)

-- The bytes that wait in the input buffer.
abbrev pub pending : Conn → List ℕ
pending c = load c.read_buffer 0 c.read_pos

pub Cut-cast :
    {frame_len : List ℕ → Option ℕ} {bytes bytes' rest rest' : List ℕ} {frames : List (List ℕ)}
    → Cut frame_len bytes frames rest
    → bytes ≡ bytes'
    → rest ≡ rest'
    → Cut frame_len bytes' frames rest'
Cut-cast {frame_len} {frames = frames} cut p q = subst₂ (λ b r. Cut frame_len b frames r) p q cut

drop-load : (m : Memory) (at n k : ℕ) → n ≤ k → drop n (load m at k) ≡ load m (at + n) (k - n)
unfolding load
drop-load m at zero k h = ap₂ (load m) (omega arith) (omega arith)
drop-load m at (suc n) zero h = absurd (omega arith)
drop-load m at (suc n) (suc k) h =
    drop-load m (at + 1) n k (omega arith) ∙ ap₂ (load m) (omega arith) (omega arith)

take-load : (m : Memory) (at n k : ℕ) → n ≤ k → take n (load m at k) ≡ load m at n
unfolding load
take-load m at zero k h = refl
take-load m at (suc n) zero h = absurd (omega arith)
take-load m at (suc n) (suc k) h = ap (λ t. m at ∷ t) (take-load m (at + 1) n k (omega arith))

module _ {handler : Handler} {frame_len : List ℕ → Option ℕ} (f : IsFraming handler frame_len) where
  kept : (frame : List ℕ) (c : Conn) → (handler.handle_data frame c).read_buffer ≡ c.read_buffer
  kept frame c = ap (λ x. x.read_buffer) (f.independent frame c c.read_buffer c.read_pos)

  kept_pos : (frame : List ℕ) (c : Conn) → (handler.handle_data frame c).read_pos ≡ c.read_pos
  kept_pos frame c = ap (λ x. x.read_pos) (f.independent frame c c.read_buffer c.read_pos)

  pub deliver-input :
      (frames : List (List ℕ)) (c : Conn) (m : Memory) (p : ℕ)
      → deliver handler frames (record c { read_buffer = m; read_pos = p })
        ≡ record (deliver handler frames c) { read_buffer = m; read_pos = p }
  unfolding deliver
  deliver-input [] c m p = refl
  deliver-input (frame ∷ frames) c m p =
      ap (deliver handler frames) (f.independent frame c m p)
      ∙ deliver-input frames (handler.handle_data frame c) m p

  front_len :
      (at : ℕ) (c : Conn)
      → at ≤ c.read_pos
      → c.read_pos ≤ read_buffer_size
      → (n : ℕ) → frame_len (load c.read_buffer at (c.read_pos - at)) ≡ some n
      → (pos_part (handler.handle_package (from c.read_buffer at) c.read_pos) ≡ n)
        × (0 < n)
        × (n ≤ c.read_pos - at)
  front_len at c a b n e =
      f.whole (from c.read_buffer at) c.read_pos (c.read_pos - at) n (omega arith) b
        (ap frame_len (load-shift c.read_buffer at (c.read_pos - at)) ∙ e)

  -- Where no package is whole the loop ends.
  stops :
      (fuel at : ℕ) (c : Conn)
      → at ≤ c.read_pos
      → c.read_pos ≤ read_buffer_size
      → frame_len (load c.read_buffer at (c.read_pos - at)) ≡ none
      → package_loop handler (suc fuel) at c ≡ some (c, some at)
  unfolding package_loop
  stops fuel at c a b e =
      let (small, fits) =
        f.partial (from c.read_buffer at) c.read_pos (c.read_pos - at) (omega arith) b
          (ap frame_len (load-shift c.read_buffer at (c.read_pos - at)) ∙ e) in
      ground arith

  -- Where a package of `n` bytes is whole the loop delivers it and goes on behind it.
  goes_on :
      (fuel at : ℕ) (c : Conn) (n : ℕ)
      → at < c.read_pos
      → pos_part (handler.handle_package (from c.read_buffer at) c.read_pos) ≡ n
      → 0 < n
      → n ≤ c.read_pos - at
      → package_loop handler (suc fuel) at c
        ≡ package_loop handler fuel (at + n) (handler.handle_data (load c.read_buffer at n) c)
  unfolding package_loop
  goes_on fuel at c n a e pos within =
      let more : ltb at c.read_pos ≡ true = ground arith in
      let ok : (n == 0 || ltb (c.read_pos - at) n) ≡ false = ground arith in rw (e, more, ok)

  -- A run of the loop from `at` on has delivered the packages of the bytes there, and stopped
  -- before the rest.
  pub record Ran (at : ℕ) (c : Conn) (run : Option (Conn × Option ℕ)) : Type 0 where
    pub frames : List (List ℕ)
    pub stop : ℕ
    pub le : stop ≤ c.read_pos
    pub cut :
        Cut frame_len
          (load c.read_buffer at (c.read_pos - at))
          frames
          (load c.read_buffer stop (c.read_pos - stop))
    pub result : run ≡ some (deliver handler frames c, some stop)

  Ran-more :
      (at n : ℕ) (c : Conn) {run : Option (Conn × Option ℕ)}
      → frame_len (load c.read_buffer at (c.read_pos - at)) ≡ some n
      → n ≤ c.read_pos - at
      → Ran (at + n) (handler.handle_data (load c.read_buffer at n) c) run
      → Ran at c run
  unfolding deliver
  Ran-more at n c front within r =
      let frame = load c.read_buffer at n in
      let p = kept_pos frame c in
      let m = kept frame c in
      record {
        frames = frame ∷ r.frames;
        stop = r.stop;
        le = omega (arith, r.le, p);
        cut = Cut.more n front (sym (take-load c.read_buffer at n (c.read_pos - at) within)) (
            Cut-cast r.cut
              ((λ i. load (m i) (at + n) (p i - (at + n)))
                ∙ ap (load c.read_buffer (at + n)) (omega arith)
                ∙ sym (drop-load c.read_buffer at n (c.read_pos - at) within))
              (λ i. load (m i) r.stop (p i - r.stop)));
        result = r.result;
      }

  pub package_loop-Ran :
      (fuel at : ℕ) (c : Conn)
      → at ≤ c.read_pos
      → c.read_pos ≤ read_buffer_size
      → c.read_pos - at < fuel
      → Ran at c (package_loop handler fuel at c)
  unfolding deliver
  package_loop-Ran zero at c a b h = elim h [ ]
  package_loop-Ran (suc fuel) at c a b h =
      elim (Option-cases (frame_len (load c.read_buffer at (c.read_pos - at)))) [
        | inl short ↦ record {
          frames = [];
          stop = at;
          le = a;
          cut = Cut.done _ short;
          result = stops fuel at c a b short;
        }
        | inr (n, front) ↦
            let (len, positive, within) = front_len at c a b n front in
            let frame = load c.read_buffer at n in
            let p = kept_pos frame c in
            rw (goes_on fuel at c n (omega arith) len positive within) (
              Ran-more at n c front within (
                package_loop-Ran fuel (at + n) (handler.handle_data frame c) (omega arith)
                  (omega arith) (omega arith)))
      ]
