-- ===== src/Dns/Examples.antt =====
-- The packets of the source's tests, and the theorems at them.
use ssh_rocket.Base.{◌<◌, ℕ, ◌≡◌, refl, ◌≤◌, [], ◌∷◌, ◌++◌, length, take, arith, usize_max}
use ssh_rocket.Dns.{
  Packet, parse_dns_query, dns_question_end, empty_dns_response, parse_dns_addresses, skip_dns_name,
  be16,
}
use ssh_rocket.Dns.Addresses.{IsPacket, AllAddresses, answer_count, parse_dns_addresses-Ensures}
use ssh_rocket.Dns.Question.{parse_dns_query-empty_dns_response}
use ssh_rocket.Dns.Responses.{answered, empty_dns_response_lem}
use ssh_rocket.Dns.Safety.{parse_dns_query-IsSafe, skip_dns_name-Ensures}
use ssh_rocket.Net.{v4}
use ssh_rocket.Outcome.{returned, absent, IsSafe, Ensures, index, slice}
use ssh_rocket.Text.{codes}
use ssh_rocket.Utf8.{from_utf8}

abbrev edns : Packet
edns = 0x00 ∷ 0x00 ∷ 0x29 ∷ 0x04 ∷ 0xd0 ∷ 0x00 ∷ 0x00 ∷ 0x00 ∷ 0x00 ∷ 0x00 ∷ 0x00 ∷ []

-- `query_with_edns` of the tests
abbrev pub query : ℕ → Packet
query qtype =
    0x12
    ∷ 0x34
    ∷ 0x01
    ∷ 0x00
    ∷ 0x00
    ∷ 0x01
    ∷ 0x00
    ∷ 0x00
    ∷ 0x00
    ∷ 0x00
    ∷ 0x00
    ∷ 0x01
    ∷ 0x07
    ∷ (codes "chatgpt" ++ (0x03 ∷ (codes "com" ++ (0x00 ∷ 0x00 ∷ qtype ∷ 0x00 ∷ 0x01 ∷ edns))))

-- A response with one A record behind a compression pointer.
abbrev pub response : Packet
response =
    0x12 ∷ 0x34 ∷ 0x81 ∷ 0x00 ∷ 0x00 ∷ 0x01 ∷ 0x00 ∷ 0x01 ∷ 0x00 ∷ 0x00 ∷ 0x00 ∷ 0x00 ∷ 0x01 ∷ b'x'
    ∷ 0x00 ∷ 0x00 ∷ 0x01 ∷ 0x00 ∷ 0x01 ∷ 0xc0 ∷ 0x0c ∷ 0x00 ∷ 0x01 ∷ 0x00 ∷ 0x01 ∷ 0x00 ∷ 0x00
    ∷ 0x00 ∷ 0x3c ∷ 0x00 ∷ 0x04 ∷ 93 ∷ 184 ∷ 216 ∷ 34 ∷ []

pub parse_query : parse_dns_query (query 28) ≡ returned (codes "chatgpt.com", 28)
unfolding parse_dns_query be16 index slice from_utf8
parse_query = refl

question_end : dns_question_end (query 28) ≡ returned 29
unfolding dns_question_end be16 index skip_dns_name
question_end = refl

read_response : parse_dns_addresses response ≡ returned (v4 93 184 216 34 ∷ [])
unfolding parse_dns_addresses be16 index slice skip_dns_name
read_response = refl

truncated : parse_dns_query (take 20 (query 1)) ≡ absent
unfolding parse_dns_query be16 index slice from_utf8
truncated = refl

nodata : empty_dns_response (query 28) 0 ≡ returned (answered (query 28) 0 29)
nodata = empty_dns_response_lem (query 28) 0 29 question_end

empty_dns_response_lem_example :
    empty_dns_response (query 28) 3 ≡ returned (answered (query 28) 3 29)
empty_dns_response_lem_example = empty_dns_response_lem (query 28) 3 29 question_end

few_bytes : length (query 28) ≤ usize_max
few_bytes = omega arith

parse_dns_query-empty_dns_response_example :
    (r : Packet) × (empty_dns_response (query 28) 0 ≡ returned r)
    × (parse_dns_query r ≡ returned (codes "chatgpt.com", 28))
parse_dns_query-empty_dns_response_example =
    parse_dns_query-empty_dns_response (query 28) 0 29 28 (codes "chatgpt.com") few_bytes
      question_end parse_query

parse_dns_query-IsSafe_example : IsSafe (parse_dns_query (take 20 (query 1)))
parse_dns_query-IsSafe_example = parse_dns_query-IsSafe (take 20 (query 1))

pub response_bytes : IsPacket response
response_bytes = refl

parse_dns_addresses-Ensures_example :
    Ensures
      (λ xs. AllAddresses xs × (length xs ≤ answer_count response))
      (parse_dns_addresses response)
parse_dns_addresses-Ensures_example = parse_dns_addresses-Ensures response response_bytes

skip_dns_name-Ensures_example :
    Ensures (λ o. (19 < o) × (o ≤ length response)) (skip_dns_name response 19)
skip_dns_name-Ensures_example = skip_dns_name-Ensures response 19
