-- ===== src/Socks5/Handshake.antt =====
-- The handshake reads what the service sends for it and not a byte more.
use ssh_rocket.Base.{
  append-nil, append_assoc, ℕ, ◌≡◌, ◌≢◌, refl, sym, ap, ◌∙◌, false, List, [], ◌∷◌, ◌++◌, Option,
  some, ltb, length, length-append, arith,
}
use ssh_rocket.Net.{IpAddr, v4, v6}
use ssh_rocket.Text.{Text, str_eq}
use ssh_rocket.Socks5.{
  Run, established, failed, refused, write_all, read_exact, skip_bound_address, read_bound_address,
  read_response, send_request, establish_socks5, request_bytes, as_bytes,
}
use ssh_rocket.Socks5.Request.{drop_all, take_all, Destination, address, name}

-- The bound address in a reply (RFC 1928, section 6): type, address and port.
abbrev pub bound_bytes : Destination → List ℕ
bound_bytes (address (v4 a b c d)) = 1 ∷ a ∷ b ∷ c ∷ d ∷ []
bound_bytes (address (v6 octets)) = 4 ∷ octets
bound_bytes (name host) = 3 ∷ length host ∷ host

abbrev pub IsFramed : Destination → Type 0
IsFramed (address (v6 octets)) = length octets ≡ 16
IsFramed _ = Unit

ltb-append : (xs ys : List ℕ) → ltb (length (xs ++ ys)) (length xs) ≡ false
ltb-append xs ys = rw (length-append xs ys) (ground arith)

read_exact_all :
    (xs ys : List ℕ) (next : List ℕ → List ℕ → Run)
    → read_exact (length xs) (xs ++ ys) next ≡ next xs ys
unfolding read_exact
read_exact_all xs ys next = rw (ltb-append xs ys, take_all xs ys, drop_all xs ys) refl

skip_bound_address-exact :
    (bound : List ℕ) (high low : ℕ) (rest : List ℕ)
    → skip_bound_address (length bound) (bound ++ high ∷ low ∷ rest) ≡ ([], established rest)
unfolding skip_bound_address
skip_bound_address-exact bound high low rest =
    rw
      (sym (length-append bound (high ∷ low ∷ [])), sym (append_assoc bound (high ∷ low ∷ []) rest))
      (read_exact_all (bound ++ high ∷ low ∷ []) rest _)

read_response-exact :
    (to : Destination) (reserved high low : ℕ) (rest : List ℕ)
    → IsFramed to
    → read_response (5 ∷ 0 ∷ reserved ∷ bound_bytes to ++ high ∷ low ∷ rest)
      ≡ ([], established rest)
unfolding read_response read_bound_address
read_response-exact (address (v4 a b c d)) reserved high low rest s =
    read_exact_all (5 ∷ 0 ∷ reserved ∷ 1 ∷ []) (a ∷ b ∷ c ∷ d ∷ high ∷ low ∷ rest) _
    ∙ skip_bound_address-exact (a ∷ b ∷ c ∷ d ∷ []) high low rest
read_response-exact (address (v6 octets)) reserved high low rest s =
    read_exact_all (5 ∷ 0 ∷ reserved ∷ 4 ∷ []) (octets ++ high ∷ low ∷ rest) _
    ∙ rw (sym s) (skip_bound_address-exact octets high low rest)
read_response-exact (name host) reserved high low rest s =
    read_exact_all (5 ∷ 0 ∷ reserved ∷ 3 ∷ []) (length host ∷ host ++ high ∷ low ∷ rest) _
    ∙ (read_exact_all (length host ∷ []) (host ++ high ∷ low ∷ rest) _
        ∙ skip_bound_address-exact host high low rest)

-- If there is a request for the host and the service accepts the greeting and grants the request,
-- with a bound address of any of the three types (an IPv6 address of 16 octets), then the
-- handshake writes the greeting and the request, succeeds, and leaves every byte behind the reply
-- to be read.
pub establish_socks5-exact :
    (parse : Text → Option IpAddr) (host : Text) (port : ℕ) (request : List ℕ) (to : Destination)
    (reserved high low : ℕ) (rest : List ℕ)
    → request_bytes (parse host) (as_bytes host) port ≡ some request
    → IsFramed to
    → establish_socks5 parse host port
        (5 ∷ 0 ∷ 5 ∷ 0 ∷ reserved ∷ bound_bytes to ++ high ∷ low ∷ rest)
      ≡ (5 ∷ 1 ∷ 0 ∷ request, established rest)
unfolding establish_socks5 send_request str_eq
establish_socks5-exact parse host port request to reserved high low rest e s =
    ap (write_all (5 ∷ 1 ∷ 0 ∷ [])) (
      read_exact_all (5 ∷ 0 ∷ []) (5 ∷ 0 ∷ reserved ∷ bound_bytes to ++ high ∷ low ∷ rest) _
      ∙ rw e (ap (write_all request) (read_response-exact to reserved high low rest s)))
    ∙ ap (λ w. (5 ∷ 1 ∷ 0 ∷ w, established rest)) (append-nil request)

read_response-refused :
    (status reserved kind : ℕ) (rest : List ℕ)
    → status ≢ 0
    → read_response (5 ∷ status ∷ reserved ∷ kind ∷ rest) ≡ ([], failed (refused status))
unfolding read_response
read_response-refused status reserved kind rest s =
    read_exact_all (5 ∷ status ∷ reserved ∷ kind ∷ []) rest _ ∙ ground (arith, s)

-- If there is a request for the host, and the service accepts the greeting and answers the request
-- with a status other than 0, then the handshake writes the greeting and the request and fails
-- with that status.
pub establish_socks5-refused :
    (parse : Text → Option IpAddr) (host : Text) (port : ℕ) (request : List ℕ)
    (status reserved kind : ℕ) (rest : List ℕ)
    → request_bytes (parse host) (as_bytes host) port ≡ some request
    → status ≢ 0
    → establish_socks5 parse host port (5 ∷ 0 ∷ 5 ∷ status ∷ reserved ∷ kind ∷ rest)
      ≡ (5 ∷ 1 ∷ 0 ∷ request, failed (refused status))
unfolding establish_socks5 send_request str_eq
establish_socks5-refused parse host port request status reserved kind rest e s =
    ap (write_all (5 ∷ 1 ∷ 0 ∷ [])) (
      read_exact_all (5 ∷ 0 ∷ []) (5 ∷ status ∷ reserved ∷ kind ∷ rest) _
      ∙ rw e (ap (write_all request) (read_response-refused status reserved kind rest s)))
    ∙ ap (λ w. (5 ∷ 1 ∷ 0 ∷ w, failed (refused status))) (append-nil request)
