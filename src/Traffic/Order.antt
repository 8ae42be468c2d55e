-- ===== src/Traffic/Order.antt =====
-- What a sample lists, and in which order.
use ssh_rocket.Base.{
  length-take, ℕ, zero, suc, ◌≤◌, ◌≡◌, refl, ◌∙◌, Bool, true, ◌&&◌, List, [], ◌∷◌, map, Option,
  none, some, arith, leb, length, take, all,
}
use ssh_rocket.Text.{Text, lines}
use ssh_rocket.Traffic.{AppTrafficTracker, RawConnection, read_lines}
use ssh_rocket.Traffic.Stats.{
  DesktopApp, ActiveConnectionStat, total, insert_by, sort_by, active_conn, app_stat, stat_total,
  raw_total, Sample, report, sample, reading_of,
}

module _ {A : Type 0} (key : A → ℕ) where
  abbrev pub at_most : ℕ → List A → Bool
  at_most n xs = all (λ y. leb (key y) n) xs

  -- No element has a greater key than one before it.
  abbrev pub is_descending : List A → Bool
  is_descending [] = true
  is_descending (x ∷ xs) = at_most (key x) xs && is_descending xs

  at_most-insert_by :
      (n : ℕ) (x : A) (ys : List A)
      → at_most n (insert_by key x ys) ≡ (leb (key x) n && at_most n ys)
  unfolding insert_by
  at_most-insert_by n x [] = refl
  at_most-insert_by n x (y ∷ ys) = ground (arith, at_most-insert_by n x ys)

  at_most-weaken :
      (m n : ℕ) (ys : List A) → leb m n ≡ true → at_most m ys ≡ true → at_most n ys ≡ true
  at_most-weaken m n [] l h = refl
  at_most-weaken m n (y ∷ ys) l h = ground (arith, at_most-weaken m n ys)

  is_descending-insert_by :
      (x : A) (ys : List A) → is_descending ys ≡ true → is_descending (insert_by key x ys) ≡ true
  unfolding insert_by
  is_descending-insert_by x [] h = refl
  is_descending-insert_by x (y ∷ ys) h = ground (
    arith,
    at_most-insert_by (key y) x ys,
    at_most-weaken (key y) (key x) ys,
    is_descending-insert_by x ys,
  )

  is_descending-sort_by : (xs : List A) → is_descending (sort_by key xs) ≡ true
  unfolding sort_by
  is_descending-sort_by [] = refl
  is_descending-sort_by (x ∷ xs) =
      is_descending-insert_by x (sort_by key xs) (is_descending-sort_by xs)

  at_most-take : (m n : ℕ) (xs : List A) → at_most n xs ≡ true → at_most n (take m xs) ≡ true
  at_most-take zero n xs h = ground arith
  at_most-take (suc m) n [] h = refl
  at_most-take (suc m) n (x ∷ xs) h = ground (arith, at_most-take m n xs)

  is_descending-take :
      (m : ℕ) (xs : List A) → is_descending xs ≡ true → is_descending (take m xs) ≡ true
  is_descending-take zero xs h = ground arith
  is_descending-take (suc m) [] h = refl
  is_descending-take (suc m) (x ∷ xs) h =
      ground (arith, at_most-take m (key x) xs, is_descending-take m xs)

abbrev pub conn_total : ActiveConnectionStat → ℕ
conn_total c = total (c.upload, c.download)

at_most-active_conn :
    (apps : List DesktopApp) (n : ℕ) (cs : List RawConnection)
    → at_most conn_total n (map (active_conn apps) cs) ≡ at_most raw_total n cs
unfolding active_conn
at_most-active_conn apps n [] = refl
at_most-active_conn apps n (c ∷ cs) = rw (at_most-active_conn apps n cs) refl

is_descending-active_conn :
    (apps : List DesktopApp) (cs : List RawConnection)
    → is_descending conn_total (map (active_conn apps) cs) ≡ is_descending raw_total cs
unfolding active_conn
is_descending-active_conn apps [] = refl
is_descending-active_conn apps (c ∷ cs) =
    ground (arith, at_most-active_conn apps (raw_total c) cs, is_descending-active_conn apps cs)

length-map : {A B : Type 0} (f : A → B) (xs : List A) → length (map f xs) ≡ length xs
length-map f [] = refl
length-map f (x ∷ xs) = rw (length-map f xs) refl

-- Both lists are in descending order of the bytes, and there are at most 60 connections.
abbrev pub IsOrdered : Sample → Type 0
IsOrdered none = Unit
IsOrdered (some (stats, conns)) =
    (is_descending stat_total stats ≡ true)
    × (is_descending conn_total conns ≡ true)
    × (length conns ≤ 60)

report-IsOrdered :
    (apps : List DesktopApp) (t : AppTrafficTracker) (raw : List RawConnection)
    → IsOrdered (report apps t raw)
unfolding report
report-IsOrdered apps t raw = (
  is_descending-sort_by stat_total (map (app_stat apps t) t.app_traffic),
  is_descending-active_conn apps (take 60 (sort_by raw_total raw))
      ∙ is_descending-take raw_total 60 (sort_by raw_total raw)
          (is_descending-sort_by raw_total raw),
  rw
      (
        length-map (active_conn apps) (take 60 (sort_by raw_total raw)),
        length-take 60 (sort_by raw_total raw),
      )
      (omega arith),
)

-- Whatever ss prints, a sample lists applications and connections in descending order of the bytes
-- sent and received modulo 2 ^ 64, and at most 60 connections.
pub sample-IsOrdered :
    (apps : List DesktopApp) (port : Text) (output : Option Text) (t : AppTrafficTracker)
    → IsOrdered (sample apps port output t).1
unfolding sample
sample-IsOrdered apps port none t = tt
sample-IsOrdered apps port (some text) t =
    report-IsOrdered apps _ (read_lines port (lines text) (reading_of t)).raw_conns
