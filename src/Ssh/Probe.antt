-- ===== src/Ssh/Probe.antt =====
-- The probe speaks SOCKS5 as the connector of the port forwardings does.
use ssh_rocket.Base.{
  ℕ, ◌+◌, ◌%◌, ◌≤◌, ◌≡◌, refl, sym, ap, ◌∙◌, Bool, true, false, not, ◌||◌, List, [], ◌∷◌,
  append_assoc, Option, none, some, arith, ltb, ◌==◌, if◌then◌else◌, length, take, null, get_or,
  drop,
}
use ssh_rocket.Socks5.{
  no_authentication_unsupported, Socks5Error, established, failed, Run, fail, write_all, read_exact,
  as_bytes, target_bytes, to_target, request_bytes, skip_bound_address, read_bound_address,
  read_response, send_request, establish_socks5,
}
use ssh_rocket.Net.{IpAddr}
use ssh_rocket.Text.{Text, str_eq}
use ssh_rocket.Ssh.Health.{
  after_resp, after_auth, Check, bail, receive, probe_http, skip_bound, read_connected,
  connect_request, probe_endpoint,
}

-- No host is an address.
abbrev pub no_address : Text → Option IpAddr
no_address h = none

module _ (host path : Text) where
  -- What the probe does behind a handshake.
  unfoldable pub after_handshake : Run → Check
  after_handshake (written, established rest) =
      ssh_rocket.Ssh.Health.send written (probe_http host path rest)
  after_handshake (written, failed e) = (written, false)

  after_handshake-write_all :
      (bytes : List ℕ) (r : Run)
      → after_handshake (write_all bytes r) ≡ ssh_rocket.Ssh.Health.send bytes (after_handshake r)
  unfolding after_handshake
  after_handshake-write_all bytes (written, established rest) = λ i.
      (append_assoc bytes written (probe_http host path rest).0 i, (probe_http host path rest).1)
  after_handshake-write_all bytes (written, failed e) = refl

  if-after_handshake :
      (b : Bool) (r s : Run) (c d : Check)
      → (b ≡ true → after_handshake r ≡ c)
      → (b ≡ false → after_handshake s ≡ d)
      → after_handshake (if b then r else s) ≡ (if b then c else d)
  if-after_handshake true r s c d h k = h refl
  if-after_handshake false r s c d h k = k refl

  after_handshake-read_exact :
      (n : ℕ) (input : List ℕ) (next : List ℕ → List ℕ → Run) (more : List ℕ → List ℕ → Check)
      → (ltb (length input) n ≡ false
          → after_handshake (next (take n input) (drop n input))
            ≡ more (take n input) (drop n input))
      → after_handshake (read_exact n input next) ≡ receive n input more
  unfolding read_exact after_handshake
  after_handshake-read_exact n input next more h =
      if-after_handshake (ltb (length input) n) (fail _) (next (take n input) (drop n input)) bail
        (more (take n input) (drop n input)) (λ e. refl) h

  after_handshake-fail : (e : Socks5Error) → after_handshake (fail e) ≡ bail
  unfolding after_handshake
  after_handshake-fail e = refl

  after_handshake-skip_bound_address :
      (n : ℕ) (input : List ℕ)
      → after_handshake (skip_bound_address n input)
        ≡ receive (n + 2) input (λ buf rest. probe_http host path rest)
  unfolding skip_bound_address
  after_handshake-skip_bound_address n input =
      after_handshake-read_exact (n + 2) input _ (λ buf rest. probe_http host path rest)
        (λ e. unfold after_handshake in refl)

  swapped :
      (kind : ℕ) (a b c d : Check)
      → (if kind == 1 then a else (if kind == 4 then b else (if kind == 3 then c else d)))
        ≡ (if kind == 1 then a else (if kind == 3 then c else (if kind == 4 then b else d)))
  swapped kind a b c d = ground arith

  after_handshake-read_bound_address :
      (kind : ℕ) (input : List ℕ)
      → after_handshake (read_bound_address kind input) ≡ skip_bound host path kind input
  unfolding read_bound_address skip_bound
  after_handshake-read_bound_address kind input =
      let over = λ (buf rest : List ℕ). probe_http host path rest in
      let named = λ (len more : List ℕ). receive (get_or len 0 0 + 2) more over in
      if-after_handshake (kind == 0x01) _ _ _
        (if kind == 4
          then receive 18 input over
          else (if kind == 3 then receive 1 input named else bail))
        (λ e. after_handshake-skip_bound_address 4 input)
        (λ e.
          if-after_handshake (kind == 0x04) _ _ (receive 18 input over)
            (if kind == 3 then receive 1 input named else bail)
            (λ f. after_handshake-skip_bound_address 16 input)
            (λ f.
              if-after_handshake (kind == 0x03) _ _ (receive 1 input named) bail
                (λ g. after_handshake-read_exact 1 input _ named (λ h.
                  after_handshake-skip_bound_address (get_or (take 1 input) 0 0) (drop 1 input)))
                (λ g. after_handshake-fail _)))
      ∙ swapped kind (receive 6 input over) (receive 18 input over) (receive 1 input named) bail

  after_handshake-read_response :
      (input : List ℕ) → after_handshake (read_response input) ≡ read_connected host path input
  unfolding read_response read_connected
  after_handshake-read_response input =
      after_handshake-read_exact 4 input _ (after_resp host path) (λ e.
        if-after_handshake (not (get_or (take 4 input) 0 0 == 0x05)) _ _ bail _
          (λ f. after_handshake-fail _)
          (λ f.
            if-after_handshake (not (get_or (take 4 input) 1 0 == 0x00)) _ _ bail _
              (λ g. after_handshake-fail _)
              (λ g. after_handshake-read_bound_address (get_or (take 4 input) 3 0) (drop 4 input))))

  greeting_eq :
      (input : List ℕ)
      → ltb (length input) 2 ≡ false
      → not (str_eq (take 2 input) (0x05 ∷ 0x00 ∷ []))
        ≡ (not (get_or (take 2 input) 0 0 == 0x05) || not (get_or (take 2 input) 1 0 == 0x00))
  unfolding str_eq
  greeting_eq [] h = ground arith
  greeting_eq (x ∷ []) h = ground arith
  greeting_eq (x ∷ y ∷ input) h = ground arith

  small : (n : ℕ) → n ≤ 255 → n % 256 ≡ n
  small n l = omega arith

  not_large : (n : ℕ) → n ≤ 255 → ltb 255 n ≡ false
  not_large n l = ground (arith, l)

  request_of :
      length (as_bytes host) ≤ 255
      → null (as_bytes host) ≡ false
      → request_bytes none (as_bytes host) 80 ≡ some (connect_request host)
  unfolding request_bytes to_target target_bytes
  request_of l h =
      rw (h, not_large (length (as_bytes host)) l, small (length (as_bytes host)) l) refl

  greeted :
      (input : List ℕ)
      → length (as_bytes host) ≤ 255
      → null (as_bytes host) ≡ false
      → after_handshake (send_request (request_bytes none (as_bytes host) 80) input)
        ≡ ssh_rocket.Ssh.Health.send (connect_request host) (read_connected host path input)
  unfolding send_request
  greeted input l h = rw (request_of l h) (
      after_handshake-write_all (connect_request host) (read_response input)
      ∙ rw (after_handshake-read_response input) refl)

  -- The answer to the greeting, for the connector.
  abbrev greeted_run : List ℕ → List ℕ → Run
  greeted_run greeting rest =
      if not (str_eq greeting (0x05 ∷ 0x00 ∷ []))
      then fail no_authentication_unsupported
      else send_request (request_bytes none (as_bytes host) 80) rest

  after_handshake-greeted_run :
      (input : List ℕ)
      → length (as_bytes host) ≤ 255
      → null (as_bytes host) ≡ false
      → ltb (length input) 2 ≡ false
      → after_handshake (greeted_run (take 2 input) (drop 2 input))
        ≡ after_auth host path (take 2 input) (drop 2 input)
  after_handshake-greeted_run input l h e = rw (greeting_eq input e) (
      if-after_handshake
        (not (get_or (take 2 input) 0 0 == 0x05) || not (get_or (take 2 input) 1 0 == 0x00))
        (fail no_authentication_unsupported)
        (send_request (request_bytes none (as_bytes host) 80) (drop 2 input)) bail
        (ssh_rocket.Ssh.Health.send (connect_request host)
          (read_connected host path (drop 2 input)))
        (λ f. after_handshake-fail _) (λ f. greeted (drop 2 input) l h))

  -- For a host name of 1 to 255 bytes and all that the service sends, the probe writes what the
  -- SOCKS5 connector writes for the host and port 80, goes on with its HTTP request exactly where
  -- the connector succeeds, and fails where the connector fails.
  pub probe_endpoint-establish_socks5 :
      (input : List ℕ)
      → length (as_bytes host) ≤ 255
      → null (as_bytes host) ≡ false
      → probe_endpoint host path input ≡ after_handshake (establish_socks5 no_address host 80 input)
  unfolding probe_endpoint establish_socks5
  probe_endpoint-establish_socks5 input l h = sym (
      after_handshake-write_all (0x05 ∷ 0x01 ∷ 0x00 ∷ []) (read_exact 2 input greeted_run)
      ∙ ap (ssh_rocket.Ssh.Health.send (0x05 ∷ 0x01 ∷ 0x00 ∷ [])) (
          after_handshake-read_exact 2 input greeted_run (after_auth host path)
            (after_handshake-greeted_run input l h)))
