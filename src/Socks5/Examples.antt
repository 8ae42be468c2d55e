-- ===== src/Socks5/Examples.antt =====
-- Tests of the handshake on the case of the source's own test, and the theorems at concrete inputs.
use ssh_rocket.Base.{ℕ, ◌≡◌, refl, List, [], ◌∷◌, none, some, arith}
use ssh_rocket.Net.{v4}
use ssh_rocket.Text.{codes, str_eq}
use ssh_rocket.Socks5.{
  established, failed, refused, invalid_host_length, read_failed, establish_socks5, request_bytes,
  target_bytes, to_target, as_bytes, encode, read_exact, send_request,
}
use ssh_rocket.Socks5.Handshake.{establish_socks5-exact, establish_socks5-refused}
use ssh_rocket.Socks5.Request.{AsksFor, address, request_bytes-AsksFor}

abbrev request : List ℕ
request = 5 ∷ 1 ∷ 0 ∷ 3 ∷ 3 ∷ 97 ∷ 46 ∷ 98 ∷ 0 ∷ 22 ∷ []

request_of_name : request_bytes none (as_bytes (codes "a.b")) 22 ≡ some request
unfolding request_bytes target_bytes to_target as_bytes encode
request_of_name = refl

no_host :
    establish_socks5 (λ s. none) [] 22 (5 ∷ 0 ∷ []) ≡ (5 ∷ 1 ∷ 0 ∷ [], failed invalid_host_length)
unfolding establish_socks5 request_bytes target_bytes to_target as_bytes read_exact send_request
    str_eq
no_host = refl

short_greeting : establish_socks5 (λ s. none) [] 22 (5 ∷ []) ≡ (5 ∷ 1 ∷ 0 ∷ [], failed read_failed)
unfolding establish_socks5 request_bytes target_bytes to_target as_bytes read_exact send_request
short_greeting = refl

request_bytes-AsksFor_example :
    AsksFor (some (v4 192 0 2 1)) [] 2222 (request_bytes (some (v4 192 0 2 1)) [] 2222)
request_bytes-AsksFor_example = request_bytes-AsksFor (some (v4 192 0 2 1)) [] 2222 tt (omega arith)

establish_socks5-exact_example :
    establish_socks5
      (λ s. none)
      (codes "a.b")
      22
      (5 ∷ 0 ∷ 5 ∷ 0 ∷ 0 ∷ 1 ∷ 127 ∷ 0 ∷ 0 ∷ 1 ∷ 4 ∷ 56 ∷ 83 ∷ 83 ∷ 72 ∷ [])
    ≡ (5 ∷ 1 ∷ 0 ∷ request, established (83 ∷ 83 ∷ 72 ∷ []))
establish_socks5-exact_example =
    establish_socks5-exact (λ s. none) (codes "a.b") 22 request (address (v4 127 0 0 1)) 0 4 56
      (83 ∷ 83 ∷ 72 ∷ []) request_of_name tt

establish_socks5-refused_example :
    establish_socks5 (λ s. none) (codes "a.b") 22 (5 ∷ 0 ∷ 5 ∷ 4 ∷ 0 ∷ 1 ∷ [])
    ≡ (5 ∷ 1 ∷ 0 ∷ request, failed (refused 4))
establish_socks5-refused_example =
    establish_socks5-refused (λ s. none) (codes "a.b") 22 request 4 0 1 [] request_of_name
      (ground arith)
