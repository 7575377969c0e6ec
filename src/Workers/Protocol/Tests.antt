-- ===== src/Workers/Protocol/Tests.antt =====
-- Frames of a small message type: a message is a number, and msgspec's part is simple.
use comfy_ui_ng.Prelude.{
  ℕ, ◌≡◌, refl, sym, ap, List, [], ◌∷◌, ◌++◌, Option, none, some, ok, codes, Text,
}
use comfy_ui_ng.Workers.Protocol.{Codec, encode_frame, decode_frame, to_bytes, from_bytes}
use comfy_ui_ng.Workers.Protocol.Frames.{IsFaithful, decode-encode_frame, decode_frame-prefix}

abbrev parsed : List ℕ → Option (Text × ℕ)
parsed [] = none
parsed (n ∷ t) = some (t, n)

abbrev written : Text × ℕ → Option (List ℕ)
written (t, n) = some (n ∷ t)

abbrev codec : Codec ℕ
codec = record {
  Builtins = Text × ℕ;
  name = codes "WorkerEvent";
  to_builtins = λ m. ([], m);
  convert = λ b. some b.1;
  envelope = λ t b. (t, b.1);
  opened = λ b. some (b.0, ([], b.1));
  encode = written;
  decode = parsed;
}

codec_decodes :
    (body : List ℕ)
    → written (codes "WorkerEvent", 9) ≡ some body
    → parsed body ≡ some (codes "WorkerEvent", 9)
codec_decodes [] e = absurd (cc)
codec_decodes (n ∷ t) e =
    let same : ◌≡◌ {A = List ℕ} (9 ∷ codes "WorkerEvent") (n ∷ t) = cc in ap parsed (sym same)

codec-IsFaithful : IsFaithful codec 9
codec-IsFaithful = record {
  decodes = λ body e. codec_decodes body e;
  opens = refl;
  restores = refl;
}

frame_9 : encode_frame codec 9 ≡ ok (to_bytes 12 ++ 9 ∷ codes "WorkerEvent")
unfolding encode_frame to_bytes
frame_9 = refl

decode-encode_frame_example : decode_frame codec (to_bytes 12 ++ 9 ∷ codes "WorkerEvent") ≡ ok 9
decode-encode_frame_example =
    decode-encode_frame codec 9 (to_bytes 12 ++ 9 ∷ codes "WorkerEvent") codec-IsFaithful frame_9

decoded_9 : decode_frame codec (to_bytes 12 ++ 9 ∷ codes "WorkerEvent") ≡ ok 9
unfolding decode_frame to_bytes from_bytes
decoded_9 = refl

decode_frame-prefix_example : ◌≡◌ {A = List ℕ} [] []
unfolding to_bytes
decode_frame-prefix_example =
    decode_frame-prefix codec (to_bytes 12 ++ 9 ∷ codes "WorkerEvent") [] 9 9 decoded_9 decoded_9
