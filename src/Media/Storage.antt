-- ===== src/Media/Storage.antt =====
-- backend/apps/media_assets/providers/storage.py: accepted types, the bytes that prove them, and
-- the keys of objects. The store itself is a parameter of its callers.
use e_platform.Prelude.{
  ℕ, zero, suc, Bool, false, ◌||◌, Option, none, some, List, [], ◌∷◌, ◌++◌, if◌then◌else◌,
}
use e_platform.Prelude.Text.{Text, codes, text_eq}
use e_platform.Prelude.Rows.{length}

-- `d.get(key)` of a literal dictionary keyed by strings.
abbrev pub get : {A : Type 0} → Text → List (Text × A) → Option A
get key [] = none
get key (e ∷ d) = if text_eq e.0 key then some e.1 else get key d

abbrev ftyp : List (ℕ × List ℕ)
ftyp = (4, codes "ftyp") ∷ []

abbrev ebml : List (ℕ × List ℕ)
ebml = (0, 26 ∷ 69 ∷ 223 ∷ 163 ∷ []) ∷ []

-- `MAGIC_SIGNATURES`
unfoldable pub magic_signatures : List (Text × List (ℕ × List ℕ))
magic_signatures =
    (codes "video/mp4", ftyp)
    ∷ (codes "audio/mp4", ftyp)
    ∷ (codes "video/quicktime", ftyp)
    ∷ (codes "video/webm", ebml)
    ∷ (codes "audio/webm", ebml)
    ∷ (
      codes "audio/mpeg",
      (0, codes "ID3") ∷ (0, 255 ∷ 251 ∷ []) ∷ (0, 255 ∷ 243 ∷ []) ∷ (0, 255 ∷ 242 ∷ []) ∷ [],
    )
    ∷ []

unfoldable pub extensions : List (Text × Text)
extensions =
    (codes "video/mp4", codes "mp4")
    ∷ (codes "audio/mp4", codes "m4a")
    ∷ (codes "video/quicktime", codes "mov")
    ∷ (codes "video/webm", codes "webm")
    ∷ (codes "audio/webm", codes "weba")
    ∷ (codes "audio/mpeg", codes "mp3")
    ∷ []

abbrev pub drop : ℕ → List ℕ → List ℕ
drop zero xs = xs
drop (suc n) [] = []
drop (suc n) (x ∷ xs) = drop n xs

abbrev pub take : ℕ → List ℕ → List ℕ
take zero xs = []
take (suc n) [] = []
take (suc n) (x ∷ xs) = x ∷ take n xs

-- `any(prefix[offset : offset + len(magic)] == magic ...)`
abbrev pub any_signature : List ℕ → List (ℕ × List ℕ) → Bool
any_signature prefix [] = false
any_signature prefix (s ∷ ss) =
    text_eq (take (length s.1) (drop s.0 prefix)) s.1 || any_signature prefix ss

abbrev any_known : List ℕ → Option (List (ℕ × List ℕ)) → Bool
any_known prefix none = false
any_known prefix (some signatures) = any_signature prefix signatures

unfoldable pub looks_like : List ℕ → Text → Bool
unfolding magic_signatures
looks_like prefix content_type = any_known prefix (get content_type magic_signatures)

-- `uuid` prints a primary key, and `token` is what `secrets.token_urlsafe(24)` returned; `none` is
-- `UnsupportedContentType`.
abbrev key_of : Text → Text → Option Text → Option Text
key_of uuid token none = none
key_of uuid token (some extension) =
    some (codes "masters/" ++ uuid ++ codes "/" ++ token ++ codes "." ++ extension)

unfoldable pub build_object_key : Text → Text → Text → Option Text
unfolding extensions
build_object_key uuid token content_type = key_of uuid token (get content_type extensions)
