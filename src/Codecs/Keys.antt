-- ===== src/Codecs/Keys.antt =====
-- The keys of `codecs.go`: which records share one.
use Prim.Native.Char.{Char}
use Prim.Native.String.{◌++◌ as str_append}
use text.Mathlib.TextLemmas.{nil-append, cons-append, append_cancel_left}
use barrel.Prelude.{String, false, ◌≡◌, ◌≢◌, refl, ap, ap₂, sym, ◌∙◌, ◌==◌, string_eq}
use barrel.Codecs.{IpInfoCodec, ip_info_key}

abbrev slash : Char
slash = "/"

-- No part of a path: the text has no slash.
abbrev pub NoSlash : String → Type 0
NoSlash String.[] = Unit
NoSlash (String.◌∷◌ c s) = (c ≢ slash) × NoSlash s

abbrev tail : String → String
tail String.[] = ""
tail (String.◌∷◌ c s) = s

abbrev head : String → Char
head String.[] = slash
head (String.◌∷◌ c s) = c

-- A text without a slash ends at the first one.
split_at_slash :
    (a b s t : String)
    → NoSlash a
    → NoSlash b
    → str_append a (String.◌∷◌ slash s) ≡ str_append b (String.◌∷◌ slash t)
    → (a ≡ b) × (s ≡ t)
split_at_slash String.[] String.[] s t h g e =
    (refl, ap tail (sym (nil-append _) ∙ e ∙ nil-append _))
split_at_slash String.[] (String.◌∷◌ d b) s t h g e =
    absurd (g.0 (sym (ap head (sym (nil-append _) ∙ e ∙ cons-append d b _))))
split_at_slash (String.◌∷◌ c a) String.[] s t h g e =
    absurd (h.0 (ap head (sym (cons-append c a _) ∙ e ∙ nil-append _)))
split_at_slash (String.◌∷◌ c a) (String.◌∷◌ d b) s t h g e =
    let same = sym (cons-append c a _) ∙ e ∙ cons-append d b _ in
    let later = split_at_slash a b s t h.1 g.1 (ap tail same) in
    (ap₂ String.◌∷◌ (ap head same) later.0, later.1)

slash_first :
    (s : String) → str_append "/addresses/" s ≡ String.◌∷◌ slash (str_append "addresses/" s)
slash_first s = cons-append slash "addresses/" s

-- Two IP records with pools and addresses that are not empty, the pools without a slash, share a
-- key only if they agree in pool and address.
pub ip_info_key_injective :
    (c d : IpInfoCodec)
    → (c.ip_info.pool_id == "") ≡ false
    → (d.ip_info.pool_id == "") ≡ false
    → (c.ip_info.address == "") ≡ false
    → (d.ip_info.address == "") ≡ false
    → NoSlash c.ip_info.pool_id
    → NoSlash d.ip_info.pool_id
    → ip_info_key c ≡ ip_info_key d
    → (c.ip_info.pool_id ≡ d.ip_info.pool_id) × (c.ip_info.address ≡ d.ip_info.address)
unfolding ip_info_key
ip_info_key_injective c d pc pd ac ad nc nd e =
    let whole = rw (pc, pd, ac, ad) at e in
    let p = c.ip_info.pool_id in
    let q = d.ip_info.pool_id in
    let cut =
      sym (ap (str_append p) (slash_first c.ip_info.address))
      ∙ append_cancel_left "/barrel/pools/" _ _ whole
      ∙ ap (str_append q) (slash_first d.ip_info.address) in
    let parts = split_at_slash p q _ _ nc nd cut in
    (parts.0, append_cancel_left "addresses/" _ _ parts.1)

-- A key depends on the pool and the address alone.
pub ip_info_key_same :
    (c d : IpInfoCodec)
    → c.ip_info.pool_id ≡ d.ip_info.pool_id
    → c.ip_info.address ≡ d.ip_info.address
    → ip_info_key c ≡ ip_info_key d
unfolding ip_info_key
ip_info_key_same c d p a = rw (p, a)
