-- ===== src/App/Uplink/Frames/Prefix.antt =====
-- A stream of transfer frames may be cut anywhere: what comes before the cut is whole frames and a
-- partial one, which the rest completes.
use tryspace_comp_radio.Base.{
  ℕ, ◌≤◌, ◌<◌, ◌≡◌, refl, sym, ap, ◌∙◌, inl, inr, List, [], ◌∷◌, ◌++◌, arith, All, concat, length,
  length-append, take, drop, take-append_le, drop-append_le, take-append_self, drop-append_self,
  take-append-drop, append_assoc,
}
use native.Mathlib.Decide.{dec_lt}
use tryspace_comp_radio.App.Uplink.Frames.{frame_len}
use tryspace_comp_radio.App.Uplink.Frames.Stream.{IsFrame, IsPartial, frame_len-append}

-- Where the header is there, what comes behind does not change the length.
same_len :
    (pre post whole more : List ℕ)
    → pre ++ post ≡ whole ++ more
    → 4 ≤ length pre
    → 4 ≤ length whole
    → frame_len pre 0 ≡ frame_len whole 0
same_len pre post whole more e h k =
    sym (frame_len-append pre post h) ∙ ap (λ b. frame_len b 0) e ∙ frame_len-append whole more k

IsPartial-prefix : (pre post : List ℕ) → IsPartial (pre ++ post) → IsPartial pre
IsPartial-prefix pre post (inl short) = inl (omega (arith, length-append pre post))
IsPartial-prefix pre post (inr p) = elim (dec_lt (length pre) 5) [
  | yes short ↦ inl short
  | no long ↦
      let len = frame_len-append pre post (omega arith) in
      let total = length-append pre post in
      inr (omega (arith, p), omega (arith, p, len), omega (arith, p, len, total))
]

-- Less than a frame, of a stream that goes on with it.
IsPartial-frame :
    (pre post f more : List ℕ)
    → IsFrame f
    → pre ++ post ≡ f ++ more
    → length pre < length f
    → IsPartial pre
IsPartial-frame pre post f more v e h = elim (dec_lt (length pre) 5) [
  | yes short ↦ inl short
  | no long ↦
      let len = same_len pre post f more e (omega arith) (omega (arith, v.long)) in
      inr (omega arith, omega (arith, len, v.long, v.framed), omega (arith, len, v.framed))
]

-- The two sides of a cut.
pub record Cut (frames : List (List ℕ)) (rest pre post : List ℕ) : Type 0 where
  pub before : List (List ℕ)
  pub behind : List (List ℕ)
  pub partial : List ℕ
  pub frames_eq : frames ≡ before ++ behind
  pub pre_eq : pre ≡ concat before ++ partial
  pub partial_is : IsPartial partial
  pub post_eq : partial ++ post ≡ concat behind ++ rest

pub Cut-stream :
    (frames : List (List ℕ)) (rest pre post : List ℕ)
    → All IsFrame frames
    → IsPartial rest
    → pre ++ post ≡ concat frames ++ rest
    → Cut frames rest pre post
Cut-stream [] rest pre post v p e = record {
  before = [];
  behind = [];
  partial = pre;
  frames_eq = refl;
  pre_eq = refl;
  partial_is = IsPartial-prefix pre post (rw e p);
  post_eq = e;
}
Cut-stream (f ∷ frames) rest pre post v p e = elim (dec_lt (length pre) (length f)) [
  | yes less ↦ record {
    before = [];
    behind = f ∷ frames;
    partial = pre;
    frames_eq = refl;
    pre_eq = refl;
    partial_is = IsPartial-frame pre post f (concat frames ++ rest) (v.0) whole less;
    post_eq = e;
  }
  | no more ↦
      extend (omega arith) (λ h. Cut-stream frames rest (drop (length f) pre) post (v.1) p h)
]
  where
    whole : pre ++ post ≡ f ++ (concat frames ++ rest)
    whole = e ∙ append_assoc f (concat frames) rest

    extend :
        length f ≤ length pre
        → (drop (length f) pre ++ post ≡ concat frames ++ rest
            → Cut frames rest (drop (length f) pre) post)
        → Cut (f ∷ frames) rest pre post
    extend le cut =
        let first : take (length f) pre ≡ f =
          sym (take-append_le (length f) pre post le)
          ∙ ap (take (length f)) whole
          ∙ take-append_self f (concat frames ++ rest) in
        let later : drop (length f) pre ++ post ≡ concat frames ++ rest =
          sym (drop-append_le (length f) pre post le)
          ∙ ap (drop (length f)) whole
          ∙ drop-append_self f (concat frames ++ rest) in
        let c = cut later in
        record {
          before = f ∷ c.before;
          behind = c.behind;
          partial = c.partial;
          frames_eq = ap (◌∷◌ f) c.frames_eq;
          pre_eq =
              sym (take-append-drop (length f) pre)
              ∙ ap (λ t. t ++ drop (length f) pre) first
              ∙ ap (λ t. f ++ t) c.pre_eq
              ∙ sym (append_assoc f (concat c.before) c.partial);
          partial_is = c.partial_is;
          post_eq = c.post_eq;
        }
