-- ===== src/Workers/Protocol/Frames.antt =====
-- Frames give the message back, and a cut frame is refused.
use comfy_ui_ng.Prelude.{
  ℕ, ◌<◌, ◌≡◌, refl, sym, ap, ◌∙◌, arith, false, Bool-cases, List, [], ◌∷◌, ◌++◌, Option, none,
  some, Result, ok, ltb, ◌==◌, ==_iff, length, length-append, text_eq, ≟_refl, inl, inr,
}
use comfy_ui_ng.Workers.Protocol.{
  max_frame_bytes, to_bytes, from_bytes, FrameError, Codec, framed, encode_frame, checked, decoded,
  unwrapped, converted, decode_frame,
}

-- The documented behaviour of msgspec that the frames rely on, for a message that it may carry.
pub record IsFaithful {Message : Type 0} (c : Codec Message) (m : Message) : Type 0 where
  pub decodes :
      (body : List ℕ)
      → c.encode (c.envelope c.name (c.to_builtins m)) ≡ some body
      → c.decode body ≡ some (c.envelope c.name (c.to_builtins m))
  pub opens : c.opened (c.envelope c.name (c.to_builtins m)) ≡ some (c.name, c.to_builtins m)
  pub restores : c.convert (c.to_builtins m) ≡ some m

from-to_bytes : (n : ℕ) → n < 4294967296 → from_bytes 0 (to_bytes n) ≡ n
unfolding from_bytes to_bytes
from-to_bytes n h = omega arith

module _ {Message : Type 0} (c : Codec Message) where
  checked-encoded :
      (m : Message) (body : List ℕ)
      → IsFaithful c m
      → c.encode (c.envelope c.name (c.to_builtins m)) ≡ some body
      → ltb max_frame_bytes (length body) ≡ false
      → checked c (length body) body ≡ ok m
  unfolding checked decoded unwrapped converted
  checked-encoded m body f e small =
      rw
        (
          (==_iff (length body) (length body)).1 refl,
          small,
          f.decodes body e,
          f.opens,
          ≟_refl c.name,
          f.restores,
        )
        refl

  decode-to_bytes :
      (n : ℕ) (body : List ℕ)
      → n < 4294967296
      → decode_frame c (to_bytes n ++ body) ≡ checked c n body
  unfolding decode_frame to_bytes
  decode-to_bytes n body h = ap (λ k. checked c k body) (from-to_bytes n h)

  -- A message whose frame was made comes back out of the frame.
  pub decode-encode_frame :
      (m : Message) (frame : List ℕ)
      → IsFaithful c m
      → encode_frame c m ≡ ok frame
      → decode_frame c frame ≡ ok m
  unfolding encode_frame framed
  decode-encode_frame m frame f h = made (c.encode (c.envelope c.name (c.to_builtins m))) refl h
    where
      made :
          (r : Option (List ℕ))
          → c.encode (c.envelope c.name (c.to_builtins m)) ≡ r
          → framed c r ≡ ok frame
          → decode_frame c frame ≡ ok m
      made none e h = absurd (cc)
      made (some body) e h = elim (Bool-cases (ltb max_frame_bytes (length body))) [
        | inl p ↦ absurd (let q = rw p at h in cc)
        | inr p ↦
            let q : ◌≡◌ {A = Result FrameError (List ℕ)} (ok (to_bytes (length body) ++ body))
                (ok frame) =
              rw p at h in
            let same : to_bytes (length body) ++ body ≡ frame = cc in
            rw (← same)
              (decode-to_bytes (length body) body (ground arith) ∙ checked-encoded m body f e p)
      ]

  -- An accepted frame has the length that its header declares.
  decode_frame-length :
      (a b d e : ℕ) (body : List ℕ) (m : Message)
      → decode_frame c (a ∷ b ∷ d ∷ e ∷ body) ≡ ok m
      → length body ≡ from_bytes 0 (a ∷ b ∷ d ∷ e ∷ [])
  unfolding decode_frame checked
  decode_frame-length a b d e body m h =
      elim (Bool-cases (from_bytes 0 (a ∷ b ∷ d ∷ e ∷ []) == length body)) [
        | inl p ↦ sym ((==_iff _ (length body)).0 p)
        | inr p ↦ absurd (let q = rw p at h in cc)
      ]

  no_more : (xs ys : List ℕ) → length (xs ++ ys) ≡ length xs → ys ≡ []
  no_more xs [] h = refl
  no_more xs (y ∷ ys) h = absurd (omega (arith, length-append xs (y ∷ ys)))

  -- A frame that was cut short or that has bytes left over is refused: no accepted frame starts with
  -- another.
  pub decode_frame-prefix :
      (frame rest : List ℕ) (m n : Message)
      → decode_frame c frame ≡ ok m
      → decode_frame c (frame ++ rest) ≡ ok n
      → rest ≡ []
  decode_frame-prefix [] rest m n h k = absurd (unfold decode_frame in cc)
  decode_frame-prefix (a ∷ []) rest m n h k = absurd (unfold decode_frame in cc)
  decode_frame-prefix (a ∷ b ∷ []) rest m n h k = absurd (unfold decode_frame in cc)
  decode_frame-prefix (a ∷ b ∷ d ∷ []) rest m n h k = absurd (unfold decode_frame in cc)
  decode_frame-prefix (a ∷ b ∷ d ∷ e ∷ body) rest m n h k =
      no_more body rest (
        decode_frame-length a b d e (body ++ rest) n k ∙ sym (decode_frame-length a b d e body m h))
