-- ===== src/Tests/Discovery.antt =====
-- The discovery property of one socket.
use agent_seat_proto.Prelude.{◌≡◌, refl, ok}
use agent_seat_proto.Prelude.Text.{Str, chars, str_len, as_bytes}
use agent_seat_proto.Proto.Advertisement.{Advertisement, new, parse, encode, validate_socket}
use agent_seat_proto.Proto.Advertisement.Laws.{parse-encode, encode-parse}

abbrev socket_name : Str
socket_name = chars "/run/user/1000/seat"

abbrev advertised : Advertisement
advertised = record { socket = socket_name }

new_lem : new socket_name ≡ ok advertised
unfolding new validate_socket str_len as_bytes
new_lem = refl

property_lem : parse (encode advertised) ≡ ok advertised
property_lem = parse-encode socket_name advertised new_lem

encode-parse_example : (encode advertised ≡ encode advertised) × (new socket_name ≡ ok advertised)
encode-parse_example = encode-parse (encode advertised) advertised property_lem
