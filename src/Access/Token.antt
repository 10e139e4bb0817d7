-- ===== src/Access/Token.antt =====
-- The token that is read from the pod's log.
use marimo_operator.Base.{
  ℕ, ◌≤◌, Text, codes, starts_with, contains, length, All, ◌≡◌, ◌≢◌, refl, ap, ◌∙◌, true, false,
  some, [], ◌∷◌, ◌++◌, arith,
}
use marimo_operator.Access.{token_mark, is_token_char, token_span, or_found, search_token}

-- A text that no token character begins.
pub data Ends : Text → Type 0 where
  at_end : Ends []
  at_char : {c : ℕ} → {s : Text} → is_token_char c ≡ false → Ends (c ∷ s)

token_span-append :
    (t after : Text)
    → All (λ c. is_token_char c ≡ true) t
    → Ends after
    → token_span (t ++ after) ≡ t
unfolding token_span
token_span-append [] [] h e = refl
token_span-append [] (c ∷ s) h (at_char n) = rw n refl
token_span-append (c ∷ t) after h e = rw (h.0, token_span-append t after h.1 e) refl

-- A text that is long enough decides what it starts with.
starts_with-of_long :
    (p s u : Text) → length p ≤ length s → starts_with p (s ++ u) ≡ starts_with p s
unfolding starts_with
starts_with-of_long [] s u l = refl
starts_with-of_long (x ∷ p) [] u l = absurd (omega arith)
starts_with-of_long (x ∷ p) (y ∷ s) u l = rw (starts_with-of_long p s u (omega arith)) refl

abbrev mark_start : Text
mark_start = codes "access_token"

marked :
    (s : Text) {c : ℕ} {t : Text}
    → token_span s ≡ c ∷ t
    → search_token (token_mark ++ s) ≡ some (c ∷ t)
unfolding search_token or_found
marked s e = rw e (unfold starts_with in refl)

unmarked :
    (x : ℕ) (s : Text)
    → starts_with token_mark (x ∷ s) ≡ false
    → search_token (x ∷ s) ≡ search_token s
unfolding search_token
unmarked x s e = rw e refl

at_mark :
    (before rest : Text) → before ++ (token_mark ++ rest) ≡ (before ++ mark_start) ++ (b'=' ∷ rest)
at_mark [] rest = refl
at_mark (x ∷ before) rest = ap (◌∷◌ x) (at_mark before rest)

length-mark_start : (before : Text) → 12 ≤ length (before ++ mark_start)
length-mark_start [] = omega arith
length-mark_start (x ∷ before) = omega (arith, length-mark_start before)

contains-lacks :
    (p : Text) (x : ℕ) (s : Text)
    → contains p (x ∷ s) ≡ false
    → (starts_with p (x ∷ s) ≡ false) × (contains p s ≡ false)
unfolding contains
contains-lacks p x s h = (ground arith, ground arith)

-- The token behind the first mark of the log is the one that is found, up to the first character
-- that no token has, if there is one at all.
pub search_token_first :
    (before t after : Text)
    → contains token_mark (before ++ codes "access_token") ≡ false
    → t ≢ []
    → All (λ c. is_token_char c ≡ true) t
    → Ends after
    → search_token (before ++ (token_mark ++ (t ++ after))) ≡ some t
search_token_first [] [] after n ne h e = absurd (ne refl)
search_token_first [] (c ∷ t) after n ne h e =
    marked ((c ∷ t) ++ after) (token_span-append (c ∷ t) after h e)
search_token_first (x ∷ before) t after n ne h e =
    let lacks = contains-lacks token_mark x (before ++ mark_start) n in
    unmarked x (before ++ (token_mark ++ (t ++ after))) (absent lacks.0)
    ∙ search_token_first before t after lacks.1 ne h e
  where
    absent :
        starts_with token_mark (x ∷ (before ++ mark_start)) ≡ false
        → starts_with token_mark (x ∷ (before ++ (token_mark ++ (t ++ after)))) ≡ false
    absent f =
        ap (λ s. starts_with token_mark (x ∷ s)) (at_mark before (t ++ after))
        ∙ (starts_with-of_long token_mark (x ∷ (before ++ mark_start)) (b'=' ∷ (t ++ after))
              (omega (arith, length-mark_start before))
            ∙ f)
