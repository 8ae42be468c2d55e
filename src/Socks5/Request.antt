-- ===== src/Socks5/Request.antt =====
-- What a SOCKS5 service reads in a request (RFC 1928, section 4), and that it reads the destination.
use ssh_rocket.Base.{
  true, false, sym, ℕ, ◌+◌, ◌*◌, ◌<◌, ◌≡◌, refl, ap, Bool, ◌||◌, ◌&&◌, List, [], ◌∷◌, ◌++◌, Option,
  none, some, ◌==◌, if◌then◌else◌, length, take, drop, null, ltb, arith,
}
use ssh_rocket.Net.{IpAddr, v4, v6}
use ssh_rocket.Socks5.{to_target, target_bytes, request_bytes, to_be_bytes}

pub data Destination : Type 0 where
  address : IpAddr → Destination
  name : List ℕ → Destination

unfoldable pub read_port : Destination → List ℕ → Option (Destination × ℕ)
read_port to (high ∷ low ∷ []) = some (to, high * 256 + low)
read_port to _ = none

unfoldable pub read_v4 : List ℕ → Option (Destination × ℕ)
read_v4 (a ∷ b ∷ c ∷ d ∷ rest) = read_port (address (v4 a b c d)) rest
read_v4 _ = none

unfoldable pub read_name : List ℕ → Option (Destination × ℕ)
read_name [] = none
read_name (n ∷ rest) = read_port (name (take n rest)) (drop n rest)

unfoldable pub read_target : ℕ → List ℕ → Option (Destination × ℕ)
read_target kind rest =
    if kind == 1
    then read_v4 rest
    else if kind == 4
    then read_port (address (v6 (take 16 rest))) (drop 16 rest)
    else if kind == 3
    then read_name rest
    else none

-- Version 5, the command to connect, a reserved zero, and the destination.
unfoldable pub read_request : List ℕ → Option (Destination × ℕ)
read_request (version ∷ command ∷ reserved ∷ kind ∷ rest) =
    if version == 5 && (command == 1 && reserved == 0) then read_target kind rest else none
read_request _ = none

abbrev pub destination : Option IpAddr → List ℕ → Destination
destination (some a) host = address a
destination none host = name host

-- An IPv6 address has 16 octets.
abbrev pub IsSized : Option IpAddr → Type 0
IsSized (some (v6 octets)) = length octets ≡ 16
IsSized _ = Unit

pub take_all : (xs ys : List ℕ) → take (length xs) (xs ++ ys) ≡ xs
take_all [] ys = refl
take_all (x ∷ xs) ys = ap (λ r. x ∷ r) (take_all xs ys)

pub drop_all : (xs ys : List ℕ) → drop (length xs) (xs ++ ys) ≡ ys
drop_all [] ys = refl
drop_all (x ∷ xs) ys = drop_all xs ys

read_port-to_be_bytes :
    (to : Destination) (port : ℕ) → port < 65536 → read_port to (to_be_bytes port) ≡ some (to, port)
unfolding read_port
read_port-to_be_bytes to port h = ap (λ n. some (to, n)) (omega arith)

module _ (port : ℕ) (h : port < 65536) where
  read_v6 :
      (octets : List ℕ)
      → length octets ≡ 16
      → read_port
          (address (v6 (take 16 (octets ++ to_be_bytes port))))
          (drop 16 (octets ++ to_be_bytes port))
        ≡ some (address (v6 octets), port)
  read_v6 octets e =
      rw (sym e, take_all octets (to_be_bytes port), drop_all octets (to_be_bytes port))
        (read_port-to_be_bytes _ port h)

-- What may be said of a request: that it is read as the destination, or that there is none because
-- the host is no address, and empty or longer than 255 bytes.
abbrev pub AsksFor : Option IpAddr → List ℕ → ℕ → Option (List ℕ) → Type 0
AsksFor a host port none = (a ≡ none) × ((null host || ltb 255 (length host)) ≡ true)
AsksFor a host port (some request) = read_request request ≡ some (destination a host, port)

name-AsksFor :
    (host : List ℕ) (port : ℕ) (b : Bool)
    → port < 65536
    → (null host || ltb 255 (length host)) ≡ b
    → AsksFor none host port (to_target (if b then none else some (0x03 ∷ length host ∷ host)) port)
unfolding to_target read_request read_target read_name
name-AsksFor host port true h e = (refl, e)
name-AsksFor host port false h e =
    rw (take_all host (to_be_bytes port), drop_all host (to_be_bytes port))
      (read_port-to_be_bytes (name host) port h)

-- If an IPv6 address has 16 octets and the port is below 65536, then a reader of RFC 1928 takes
-- from the request the address, or the name where the host is no address, and the port; there is
-- no request only where the host is no address and is empty or longer than 255 bytes.
pub request_bytes-AsksFor :
    (a : Option IpAddr) (host : List ℕ) (port : ℕ)
    → IsSized a
    → port < 65536
    → AsksFor a host port (request_bytes a host port)
unfolding request_bytes target_bytes to_target read_request read_target read_v4
request_bytes-AsksFor (some (v4 a b c d)) host port s h =
    read_port-to_be_bytes (address (v4 a b c d)) port h
request_bytes-AsksFor (some (v6 octets)) host port s h = read_v6 port h octets s
request_bytes-AsksFor none host port s h =
    name-AsksFor host port (null host || ltb 255 (length host)) h refl
