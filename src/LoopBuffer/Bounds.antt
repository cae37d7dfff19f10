-- ===== src/LoopBuffer/Bounds.antt =====
-- Where the methods of loop_buffer.h touch the array, and the overload of `push` that encrypts.
use snet.Prelude.{
  ℕ, ◌≡◌, refl, ap, ◌∙◌, List, ◌++◌, length, length-append, length-take, length-drop, take, drop,
  take-append, take_all, drop-append, drop_all, ltb, if◌then◌else◌, Bool-cases, inl, inr, arith,
}
use snet.LoopBuffer.{LoopBuffer, sub32, write_pos, copy_in, push, push_encrypted}
use snet.LoopBuffer.Index.{IsSize}
use snet.LoopBuffer.Inv.{IsValid}

module _ {size : ℕ} (s : IsSize size) {b : LoopBuffer} (v : IsValid size b) where
  -- What `push` with an encrypter stores: the blocks that it copies are encrypted one by one.
  abbrev pub encrypted : List ℕ → (List ℕ → List ℕ) → List ℕ
  encrypted bytes encrypter =
      let n = sub32 size (write_pos size b) in
      if ltb n (length bytes)
      then encrypter (take n bytes) ++ encrypter (drop n bytes)
      else encrypter bytes

  -- With an encrypter that keeps the length, `push` encrypting is `push` of the encrypted blocks.
  pub push_encrypted_lem :
      (bytes : List ℕ) (encrypter : List ℕ → List ℕ)
      → ((block : List ℕ) → length (encrypter block) ≡ length block)
      → push_encrypted size b bytes encrypter ≡ push size b (encrypted bytes encrypter)
  unfolding push_encrypted push copy_in
  push_encrypted_lem bytes encrypter keeps =
      elim (Bool-cases (ltb (sub32 size (write_pos size b)) (length bytes))) [
        | inr near ↦
            let e : length (encrypter bytes) ≡ length bytes = keeps bytes in rw (near, e, near) refl
        | inl wraps ↦
            let n = sub32 size (write_pos size b) in
            let first = encrypter (take n bytes) in
            let second = encrypter (drop n bytes) in
            let size₁ : length first ≡ n =
              keeps (take n bytes) ∙ ground (arith, length-take n bytes) in
            let whole : length (first ++ second) ≡ length bytes = omega (
              arith,
              length-append first second,
              keeps (take n bytes),
              keeps (drop n bytes),
              length-take n bytes,
              length-drop n bytes,
            ) in
            let front : take n (first ++ second) ≡ first =
              take-append n first second (omega arith) ∙ take_all n first (omega arith) in
            let back : drop n (first ++ second) ≡ second =
              drop-append n first second (omega arith)
              ∙ ap (λ t. t ++ second) (drop_all n first (omega arith)) in
            rw (wraps, whole, wraps, front, back) refl
      ]
