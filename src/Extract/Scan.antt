-- ===== src/Extract/Scan.antt =====
-- The scan over a candidate: where it closes an object.
use pi_pi_mink.Prelude.{
  ℕ, suc, Bool, true, false, ◌≡◌, refl, ap, inl, inr, some, [], ◌∷◌, ◌++◌, length, arith,
  Bool-cases, Option-cases,
}
use pi_pi_mink.Prelude.Text.{Bytes}
use pi_pi_mink.Extract.{ScanState, step, scan}

-- The states that the bytes of a text lead through, with no closing byte among them.
pub data Passes : ScanState → Bytes → ScanState → Type 0 where
  here : {s : ScanState} → Passes s [] s
  next :
      {s t u : ScanState} {ch : ℕ} {text : Bytes}
      → step ch s ≡ (t, false)
      → Passes t text u
      → Passes s (ch ∷ text) u

-- The text before its last byte is passed, and the last byte closes the object.
pub record Closes (s : ScanState) (text : Bytes) (n : ℕ) : Type 0 where
  pub body : Bytes
  pub last : ℕ
  pub rest : Bytes
  pub state : ScanState
  pub after : ScanState
  pub splits : text ≡ body ++ last ∷ rest
  pub size : n ≡ suc (length body)
  pub passes : Passes s body state
  pub closed : step last state ≡ (after, true)

scan-Closes : (text : Bytes) (s : ScanState) (n : ℕ) → scan s text ≡ some n → Closes s text n
unfolding scan
scan-Closes [] s n h = cc
scan-Closes (ch ∷ text) s n h = elim (Bool-cases (step ch s).1) [
  | inl closed ↦ record {
    body = [];
    last = ch;
    rest = text;
    state = s;
    after = (step ch s).0;
    splits = refl;
    size = ground (arith, closed);
    passes = here;
    closed = ap (λ (b : Bool). ((step ch s).0, b)) closed;
  }
  | inr on ↦ elim (Option-cases (scan (step ch s).0 text)) [
    | inl e ↦ absurd (ground (arith, on, e))
    | inr (m, e) ↦
        let c = scan-Closes text (step ch s).0 m e in
        record {
          body = ch ∷ c.body;
          last = c.last;
          rest = c.rest;
          state = c.state;
          after = c.after;
          splits = ap (◌∷◌ ch) c.splits;
          size = ground (arith, on, e, c.size);
          passes = next (ap (λ (b : Bool). ((step ch s).0, b)) on) c.passes;
          closed = c.closed;
        }
  ]
]

closing :
    (ch : ℕ) (s t : ScanState)
    → step ch s ≡ (t, true)
    → (ch ≡ b'}') × (s.depth ≡ 1) × (s.in_string ≡ false)
unfolding step
closing ch s t h = ground arith

-- A candidate that the scan closes ends in a closing brace, outside of any quoted string and at
-- depth 1, and no byte before it closes the object.
pub scan_lem :
    (text : Bytes) (s : ScanState) (n : ℕ)
    → scan s text ≡ some n
    → (c : Closes s text n) × (c.last ≡ b'}') × (c.state.depth ≡ 1) × (c.state.in_string ≡ false)
scan_lem text s n h =
    let c = scan-Closes text s n h in
    let (brace, depth, outside) = closing c.last c.state c.after c.closed in
    (c, brace, depth, outside)
