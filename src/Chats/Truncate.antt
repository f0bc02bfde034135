-- ===== src/Chats/Truncate.antt =====
-- The bounds of `truncate` in internal/bridge/chats.go.
use tg_bridge.Prelude.{
  ℕ, suc, ◌+◌, ◌-◌, ◌≡◌, ◌≤◌, ◌<◌, refl, ap, [], ◌∷◌, ◌++◌, Str, length, length-append, length-take,
  take-length, take, leb, arith, sym, false, true,
}
use tg_bridge.Chats.{unlined, truncate}

length-unlined : (s : Str) → length (unlined s) ≡ length s
unfolding unlined
length-unlined [] = refl
length-unlined (b ∷ s) = ap suc (length-unlined s)

abbrev dots : Str
dots = 226 ∷ 128 ∷ 166 ∷ []

truncate_long : (s : Str) (n : ℕ) → n < length s → truncate s n ≡ take (n - 1) (unlined s) ++ dots
unfolding truncate
truncate_long s n lt =
    let e : leb (length (unlined s)) n ≡ false = ground (arith, length-unlined s) in
    rw (truncate, e) refl

truncate_short : (s : Str) (n : ℕ) → length s ≤ n → truncate s n ≡ unlined s
unfolding truncate
truncate_short s n le =
    let e : leb (length (unlined s)) n ≡ true = ground (arith, length-unlined s) in
    rw (truncate, e) refl

-- A text of at most `n` bytes is kept, with spaces for its line breaks. Of a longer text the first
-- `n - 1` bytes are kept and three are added, so the result has `n + 2` bytes.
pub truncate_lem :
    (s : Str) (n : ℕ)
    → 0 < n
    → (length s ≤ n → truncate s n ≡ unlined s)
      × (n < length s
          → (take (n - 1) (truncate s n) ≡ take (n - 1) (unlined s))
            × (length (truncate s n) ≡ n + 2))
truncate_lem s n lt = (
  truncate_short s n,
  λ long.
      let few = length-take (n - 1) (unlined s) (omega (arith, length-unlined s)) in
      rw (truncate_long s n long) (
        take-length (n - 1) (take (n - 1) (unlined s)) dots (sym few),
        omega (arith, length-append (take (n - 1) (unlined s)) dots, few),
      ),
)
