-- ===== src/Socks5.antt =====
-- crates/ssh-rocket-runtime/src/proxy_connector.rs: the handshake with the local SOCKS5 service. The
-- socket is the bytes that the service sends until it closes or the timeout passes; the bytes written
-- to it are part of the result.
pub mod Request
pub mod Handshake
mod Examples
use ssh_rocket.Base.{
  ℕ, suc, zero, ◌+◌, ◌*◌, ◌/◌, ◌%◌, Bool, true, false, not, ◌||◌, List, [], ◌∷◌, ◌++◌, Option, none,
  some, ltb, leb, ◌==◌, if◌then◌else◌, length, take, drop, get_or, null,
}
use ssh_rocket.Net.{IpAddr, v4, v6}
use ssh_rocket.Text.{Text, str_eq}

pub data Socks5Error : Type 0 where
  read_failed no_authentication_unsupported invalid_host_length invalid_response : Socks5Error
  refused unknown_address_type : ℕ → Socks5Error

-- The bytes behind the handshake, or why it failed.
pub data Reply : Type 0 where
  established : List ℕ → Reply
  failed : Socks5Error → Reply

-- What was written, and how it ended.
abbrev pub Run : Type 0
Run = List ℕ × Reply

abbrev pub fail : Socks5Error → Run
fail e = ([], failed e)

abbrev pub write_all : List ℕ → Run → Run
write_all bytes (written, reply) = (bytes ++ written, reply)

-- `read_exact` of a number of bytes
unfoldable pub read_exact : ℕ → List ℕ → (List ℕ → List ℕ → Run) → Run
read_exact n input next =
    if ltb (length input) n then fail read_failed else next (take n input) (drop n input)

-- `str::as_bytes`
unfoldable pub encode : ℕ → List ℕ
encode c =
    if ltb c 0x80
    then c ∷ []
    else if ltb c 0x800
    then (0xc0 + c / 64) ∷ (0x80 + c % 64) ∷ []
    else if ltb c 0x10000
    then (0xe0 + c / 4096) ∷ (0x80 + c / 64 % 64) ∷ (0x80 + c % 64) ∷ []
    else (0xf0 + c / 262144) ∷ (0x80 + c / 4096 % 64) ∷ (0x80 + c / 64 % 64) ∷ (0x80 + c % 64) ∷ []

unfoldable pub as_bytes : Text → List ℕ
as_bytes [] = []
as_bytes (c ∷ s) = encode c ++ as_bytes s

-- `u16::to_be_bytes`
abbrev pub to_be_bytes : ℕ → List ℕ
to_be_bytes port = port / 256 % 256 ∷ port % 256 ∷ []

-- The address in the request: an address that `IpAddr` parses, or a name of 1 to 255 bytes.
unfoldable pub target_bytes : Option IpAddr → List ℕ → Option (List ℕ)
target_bytes (some (v4 a b c d)) host = some (0x01 ∷ a ∷ b ∷ c ∷ d ∷ [])
target_bytes (some (v6 octets)) host = some (0x04 ∷ octets)
target_bytes none host =
    if null host || ltb 255 (length host) then none else some (0x03 ∷ length host ∷ host)

unfoldable pub to_target : Option (List ℕ) → ℕ → Option (List ℕ)
to_target none port = none
to_target (some target) port = some (0x05 ∷ 0x01 ∷ 0x00 ∷ target ++ to_be_bytes port)

unfoldable pub request_bytes : Option IpAddr → List ℕ → ℕ → Option (List ℕ)
request_bytes address host port = to_target (target_bytes address host) port

unfoldable pub skip_bound_address : ℕ → List ℕ → Run
skip_bound_address address_len input =
    read_exact (address_len + 2) input (λ remainder rest. ([], established rest))

unfoldable pub read_bound_address : ℕ → List ℕ → Run
read_bound_address kind input =
    if kind == 0x01
    then skip_bound_address 4 input
    else if kind == 0x04
    then skip_bound_address 16 input
    else if kind == 0x03
    then read_exact 1 input (λ size rest. skip_bound_address (get_or size 0 0) rest)
    else fail (unknown_address_type kind)

unfoldable pub read_response : List ℕ → Run
read_response input = read_exact 4 input (λ response rest.
    if not (get_or response 0 0 == 0x05)
    then fail invalid_response
    else if not (get_or response 1 0 == 0x00)
    then fail (refused (get_or response 1 0))
    else read_bound_address (get_or response 3 0) rest)

unfoldable pub send_request : Option (List ℕ) → List ℕ → Run
send_request none input = fail invalid_host_length
send_request (some request) input = write_all request (read_response input)

-- The parser of `std::net::IpAddr` is a parameter.
unfoldable pub establish_socks5 : (Text → Option IpAddr) → Text → ℕ → List ℕ → Run
establish_socks5 parse host port input = write_all (0x05 ∷ 0x01 ∷ 0x00 ∷ []) (
    read_exact 2 input (λ greeting rest.
      if not (str_eq greeting (0x05 ∷ 0x00 ∷ []))
      then fail no_authentication_unsupported
      else send_request (request_bytes (parse host) (as_bytes host) port) rest))
