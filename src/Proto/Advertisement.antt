-- ===== src/Proto/Advertisement.antt =====
-- crates/agent-seat-proto/src/advertisement.rs: the X11 discovery property, three fields separated
-- by NUL.
pub mod Laws
use agent_seat_proto.Prelude.{
  ℕ, ◌+◌, Bool, not, ◌||◌, ltb, ◌==◌, if◌then◌else◌, List, [], ◌∷◌, ◌++◌, any, is_empty, Result, ok,
  err, ◌>>◌, false,
}
use agent_seat_proto.Prelude.Text.{Str, chars, same, str_len}
use agent_seat_proto.Proto.Limits.{max_advertisement_bytes, protocol_name}

abbrev pub separator : ℕ
separator = 0

abbrev pub revision_text : Str
revision_text = chars "9"

pub record Advertisement : Type 0 where
  pub socket : Str

pub data AdvertisementError : Type 0 where
  too_large fields protocol revision socket_path : AdvertisementError

-- `value.split(SEPARATOR)`
abbrev pub onto_first : ℕ → List Str → List Str
onto_first c [] = (c ∷ []) ∷ []
onto_first c (f ∷ fs) = (c ∷ f) ∷ fs

unfoldable pub split : Str → List Str
split [] = [] ∷ []
split (c ∷ rest) = if c == separator then [] ∷ split rest else onto_first c (split rest)

abbrev pub starts_with_slash : Str → Bool
starts_with_slash [] = false
starts_with_slash (c ∷ rest) = c == b'/'

unfoldable pub validate_socket : Str → Result AdvertisementError (Unit {0})
validate_socket s =
    if is_empty s || not (starts_with_slash s) || any (λ c. c == separator) s
    then err socket_path
    else if ltb 107 (str_len s)
    then err socket_path
    else ok tt

-- The reads of `fields.next()` after the length check.
unfoldable pub parse_fields : List Str → Result AdvertisementError Advertisement
parse_fields [] = err protocol
parse_fields (name ∷ []) = if not (same name protocol_name) then err protocol else err fields
parse_fields (name ∷ rev ∷ []) =
    if not (same name protocol_name)
    then err protocol
    else if not (same rev revision_text)
    then err revision
    else err fields
parse_fields (name ∷ rev ∷ socket ∷ []) =
    if not (same name protocol_name)
    then err protocol
    else if not (same rev revision_text)
    then err revision
    else validate_socket socket >> ok (record { socket = socket })
parse_fields (name ∷ rev ∷ socket ∷ extra ∷ more) =
    if not (same name protocol_name)
    then err protocol
    else if not (same rev revision_text)
    then err revision
    else err fields

unfoldable pub parse : Str → Result AdvertisementError Advertisement
parse value =
    if ltb max_advertisement_bytes (str_len value)
    then err too_large
    else parse_fields (split value)

unfoldable pub new : Str → Result AdvertisementError Advertisement
new socket =
    validate_socket socket
    >> (if ltb max_advertisement_bytes
          (str_len protocol_name + 1 + str_len revision_text + 1 + str_len socket)
        then err too_large
        else ok (record { socket = socket }))

unfoldable pub encode : Advertisement → Str
encode a = protocol_name ++ separator ∷ (revision_text ++ separator ∷ a.socket)
