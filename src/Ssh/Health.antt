-- ===== src/Ssh/Health.antt =====
-- crates/ssh-rocket-runtime/src/ssh.rs: the health checks. A socket is the bytes that it delivers until
-- it closes or the time is over; the result is what was written, and whether there was no error.
use ssh_rocket.Base.{
  ℕ, ◌+◌, ◌*◌, ◌/◌, ◌%◌, Bool, false, not, ◌&&◌, ◌||◌, List, [], ◌∷◌, ◌++◌, Option, none, some, ltb,
  ◌==◌, if◌then◌else◌, length, take, get_or, drop,
}
use ssh_rocket.Socks5.{as_bytes, to_be_bytes}
use ssh_rocket.Text.{Text, codes, starts_with, str_eq}
use ssh_rocket.Utf8.{from_utf8}

abbrev pub Check : Type 0
Check = List ℕ × Bool

abbrev pub bail : Check
bail = ([], false)

abbrev pub send : List ℕ → Check → Check
send bytes (written, good) = (bytes ++ written, good)

abbrev pub receive : ℕ → List ℕ → (List ℕ → List ℕ → Check) → Check
receive n input next = if ltb (length input) n then bail else next (take n input) (drop n input)

abbrev status_line : Option Text → Text
status_line none = []
status_line (some s) = s

unfoldable pub is_http : List ℕ → Bool
is_http response = starts_with (status_line (from_utf8 response)) (codes "HTTP/1.")

unfoldable pub http_request : Text → Text → List ℕ
http_request host path = as_bytes (
    codes "HEAD "
    ++ (path
        ++ (codes " HTTP/1.1\r\nHost: "
            ++ (host ++ codes "\r\nUser-Agent: ssh-rocket-probe\r\nConnection: close\r\n\r\n"))))

unfoldable pub probe_http : Text → Text → List ℕ → Check
probe_http host path input =
    send (http_request host path) (receive 12 input (λ response rest. ([], is_http response)))

unfoldable pub skip_bound : Text → Text → ℕ → List ℕ → Check
skip_bound host path kind input =
    if kind == 0x01
    then receive 6 input (λ buf rest. probe_http host path rest)
    else if kind == 0x03
    then receive 1 input
        (λ len more. receive (get_or len 0 0 + 2) more (λ buf rest. probe_http host path rest))
    else if kind == 0x04
    then receive 18 input (λ buf rest. probe_http host path rest)
    else bail

-- The response to the request to connect.
abbrev pub after_resp : Text → Text → List ℕ → List ℕ → Check
after_resp host path resp rest =
    if not (get_or resp 0 0 == 0x05)
    then bail
    else if not (get_or resp 1 0 == 0x00)
    then bail
    else skip_bound host path (get_or resp 3 0) rest

unfoldable pub read_connected : Text → Text → List ℕ → Check
read_connected host path input = receive 4 input (after_resp host path)

abbrev pub connect_request : Text → List ℕ
connect_request host =
    0x05 ∷ 0x01 ∷ 0x00 ∷ 0x03 ∷ length (as_bytes host) % 256 ∷ (as_bytes host ++ to_be_bytes 80)

-- The answer to the greeting.
abbrev pub after_auth : Text → Text → List ℕ → List ℕ → Check
after_auth host path auth_resp rest =
    if not (get_or auth_resp 0 0 == 0x05) || not (get_or auth_resp 1 0 == 0x00)
    then bail
    else send (connect_request host) (read_connected host path rest)

unfoldable pub probe_endpoint : Text → Text → List ℕ → Check
probe_endpoint host path input =
    send (0x05 ∷ 0x01 ∷ 0x00 ∷ []) (receive 2 input (after_auth host path))

abbrev primary_host : Text
primary_host = codes "cp.cloudflare.com"

abbrev second_host : Text
second_host = codes "connectivitycheck.gstatic.com"

-- What the two connections deliver; the second one is made only if the first fails.
unfoldable pub check_socks_health : List ℕ → List ℕ → Bool
check_socks_health first second =
    (probe_endpoint primary_host (codes "/generate_204") first).1
    || (probe_endpoint second_host (codes "/generate_204") second).1

abbrev pub dns_query : List ℕ
dns_query =
    0x53 ∷ 0x52 ∷ 0x01 ∷ 0x00 ∷ 0x00 ∷ 0x01 ∷ 0x00 ∷ 0x00 ∷ 0x00 ∷ 0x00 ∷ 0x00 ∷ 0x00 ∷ 0x07 ∷ b'e'
    ∷ b'x' ∷ b'a' ∷ b'm' ∷ b'p' ∷ b'l' ∷ b'e' ∷ 0x03 ∷ b'c' ∷ b'o' ∷ b'm' ∷ 0x00 ∷ 0x00 ∷ 0x01
    ∷ 0x00 ∷ 0x01 ∷ []

-- A response to the query, by its id and its highest flag.
abbrev is_response : List ℕ → Bool
is_response response =
    not (ltb (length response) 12)
    && (str_eq (take 2 response) (take 2 dns_query) && not (get_or response 2 0 / 128 % 2 == 0))

unfoldable pub is_answered : List ℕ → Bool
is_answered response =
    is_response response
    && (get_or response 3 0 % 16 == 0 && not (get_or response 6 0 * 256 + get_or response 7 0 == 0))

unfoldable pub is_routed : List ℕ → Bool
is_routed response = is_response response && not (get_or response 3 0 % 16 == 2)

abbrev be_length : List ℕ → ℕ
be_length l = get_or l 0 0 * 256 + get_or l 1 0

abbrev routed : Option (List ℕ) → Bool
routed none = false
routed (some response) = is_routed response

-- What the forwarded port and the local router deliver.
unfoldable pub check_dns_health : List ℕ → Option (List ℕ) → Check
check_dns_health input local = send (to_be_bytes (length dns_query) ++ dns_query) (
    receive 2 input (λ size more.
      receive (be_length size) more
        (λ response rest. if not (is_answered response) then bail else (dns_query, routed local))))
