-- ===== src/Transport/Port.antt =====
-- The loop "Remove the port" of src/server.c and src/client.c (their branches for Windows), which
-- four functions share: it cuts the address that `WSAAddressToStringW` has written into `addr_wc`.
-- That text and what lies behind its NUL are an argument.
use cdtp.Common.{ℕ, ◌≡◌, refl, false, ◌==◌, ◌||◌, if◌then◌else◌, List, [], ◌∷◌, ◌++◌, All, arith}

-- the loop over `addr_wc`: at the first `:` it writes a NUL and stops, as it does at a NUL
unfoldable pub remove_port : List ℕ → List ℕ
remove_port [] = []
remove_port (c ∷ addr_wc) =
    let rest = remove_port addr_wc in
    if c == 0 then c ∷ addr_wc else if c == b':' then 0 ∷ addr_wc else c ∷ rest

-- the text that an array holds: what stands before its first NUL
abbrev pub text_of : List ℕ → List ℕ
text_of [] = []
text_of (c ∷ cs) = let rest = text_of cs in if c == 0 then [] else c ∷ rest

-- a character of an address without its port
abbrev pub IsPlain : ℕ → Type 0
IsPlain c = ((c == 0) || (c == b':')) ≡ false

-- The loop leaves the text before the port: of an array with characters other than `:` and NUL, the
-- character `:`, and whatever follows, the text is those characters; and an array in which a NUL
-- comes before any `:` is as it was.
pub remove_port_lem :
    (host rest : List ℕ)
    → All IsPlain host
    → (text_of (remove_port (host ++ (b':' ∷ rest))) ≡ host)
      × (remove_port (host ++ (0 ∷ rest)) ≡ host ++ (0 ∷ rest))
unfolding remove_port
remove_port_lem [] rest plain = (refl, refl)
remove_port_lem (c ∷ host) rest (p, plain) =
    let (cut, kept) = remove_port_lem host rest plain in
    let none : (c == 0) ≡ false = ground arith in
    let other : (c == b':') ≡ false = ground arith in
    (rw (none, other, cut, none) refl, rw (none, other, kept) refl)
