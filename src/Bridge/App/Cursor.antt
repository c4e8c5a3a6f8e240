-- ===== src/Bridge/App/Cursor.antt =====
-- The cursors that ewsmcp/bridge/app.py prints and reads.
use exchange_mcp.Prelude.{
  ℕ, suc, ◌≡◌, refl, ap, ◌∙◌, arith, false, some, [], ◌∷◌, ◌++◌, inl, inr, if_true, if_false, All,
  All-map, ◌==◌,
}
use exchange_mcp.Prelude.Int.{ℤ, pos, negsuc}
use exchange_mcp.Text.{Text, codes, split_on, cons_first}
use exchange_mcp.Text.Decimal.{Digit, print, print-Digits, int, int-print, int-print_negative}
use exchange_mcp.Bridge.App.{Bad, cursor_of, cursor_parts, parse_cursor, print_int, cursor}

-- No separator in the text.
abbrev pub Without : ℕ → Text → Type 0
Without sep s = All (λ c. c == sep ≡ false) s

split_on-whole : (sep : ℕ) (s : Text) → Without sep s → split_on sep s ≡ s ∷ []
unfolding split_on
split_on-whole sep [] h = refl
split_on-whole sep (c ∷ s) h =
    if_false (c == sep) ([] ∷ split_on sep s) (cons_first c (split_on sep s)) h.0
    ∙ ap (cons_first c) (split_on-whole sep s h.1)

split_on-first :
    (sep : ℕ) (s t : Text) → Without sep s → split_on sep (s ++ (sep ∷ t)) ≡ s ∷ split_on sep t
unfolding split_on
split_on-first sep [] t h =
    if_true (sep == sep) ([] ∷ split_on sep t) (cons_first sep (split_on sep t)) (ground arith)
split_on-first sep (c ∷ s) t h =
    if_false (c == sep) ([] ∷ split_on sep (s ++ (sep ∷ t)))
      (cons_first c (split_on sep (s ++ (sep ∷ t)))) h.0
    ∙ ap (cons_first c) (split_on-first sep s t h.1)

Digit-colon : (c : ℕ) → Digit c → c == b':' ≡ false
Digit-colon c d = ground arith

print-Without : (n : ℕ) → Without b':' (print n)
print-Without n = All-map Digit (λ c. c == b':' ≡ false) Digit-colon (print n) (print-Digits n)

print_int-Without : (seq : ℤ) → Without b':' (print_int seq)
print_int-Without (pos n) = print-Without n
print_int-Without (negsuc n) = (refl, print-Without (suc n))

int-print_int : (seq : ℤ) → int (print_int seq) ≡ some seq
int-print_int (pos n) = int-print n
int-print_int (negsuc n) = int-print_negative n

-- A cursor that the bridge printed is read back by the generation that printed it.
pub parse_cursor-cursor :
    (gen : ℕ) (seq : ℤ) → parse_cursor (some (cursor gen seq)) gen ≡ inr (some seq)
unfolding parse_cursor cursor
parse_cursor-cursor gen seq =
    ap (cursor_parts gen) (
      split_on-first b':' (codes "v1") (print gen ++ (b':' ∷ print_int seq)) (refl, (refl, tt))
      ∙ ap (λ ws. codes "v1" ∷ ws)
          (split_on-first b':' (print gen) (print_int seq) (print-Without gen)
            ∙ ap (λ ws. print gen ∷ ws)
                (split_on-whole b':' (print_int seq) (print_int-Without seq))))
    ∙ ap (λ x. cursor_of gen x (int (print_int seq))) (int-print gen)
    ∙ ap (cursor_of gen (some (pos gen))) (int-print_int seq)
    ∙ if_true (gen == gen) (inr (some seq)) (inl Bad.cursor_generation) (ground arith)
