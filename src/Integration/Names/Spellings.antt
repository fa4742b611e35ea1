-- ===== src/Integration/Names/Spellings.antt =====
-- The three spellings of an account name lead to one key.
use rustdesk_server_nemo.Base.{
  ℕ, ◌≡◌, refl, false, none, some, [], ◌∷◌, ◌++◌, any, Str, trim, has_char, split_once, arith,
}
use rustdesk_server_nemo.Integration.Names.{backslash, raw_username}

-- A text is cut at the first separator.
split_once-append :
    (c : ℕ) (a b : Str) → has_char c a ≡ false → split_once c (a ++ (c ∷ b)) ≡ some (a, b)
unfolding split_once any
split_once-append c [] b h = ground arith
split_once-append c (d ∷ a) b h = ground (arith, split_once-append c a b)

split_once-none : (c : ℕ) (s : Str) → has_char c s ≡ false → split_once c s ≡ none
unfolding split_once any
split_once-none c [] h = refl
split_once-none c (d ∷ s) h = ground (arith, split_once-none c s)

has_char-append :
    (c : ℕ) (a b : Str) → has_char c a ≡ false → has_char c b ≡ false → has_char c (a ++ b) ≡ false
unfolding any
has_char-append c [] b h k = k
has_char-append c (d ∷ a) b h k = ground (arith, has_char-append c a b)

at_sign : (s : Str) → has_char backslash s ≡ false → has_char backslash (b'@' ∷ s) ≡ false
unfolding any
at_sign s h = h

-- `user`, `DOMAIN\user` and `user@domain` have one bare name, for a user with neither separator and
-- a domain with no backslash, none of which has whitespace at its ends.
pub raw_username_spellings :
    (user domain : Str)
    → has_char backslash user ≡ false
    → has_char b'@' user ≡ false
    → has_char backslash domain ≡ false
    → trim user ≡ user
    → trim (domain ++ (backslash ∷ user)) ≡ domain ++ (backslash ∷ user)
    → trim (user ++ (b'@' ∷ domain)) ≡ user ++ (b'@' ∷ domain)
    → (raw_username user ≡ user)
      × (raw_username (domain ++ (backslash ∷ user)) ≡ user)
      × (raw_username (user ++ (b'@' ∷ domain)) ≡ user)
unfolding raw_username
raw_username_spellings user domain bare plain single t1 t2 t3 = (
  ground (arith, split_once-none backslash user bare, split_once-none b'@' user plain),
  ground (arith, split_once-append backslash domain user single),
  ground (
    arith,
    split_once-none backslash (user ++ (b'@' ∷ domain)) no_backslash,
    split_once-append b'@' user domain plain,
  ),
)
  where
    no_backslash : has_char backslash (user ++ (b'@' ∷ domain)) ≡ false
    no_backslash = has_char-append backslash user (b'@' ∷ domain) bare (at_sign domain single)
