-- ===== src/Issues/Marker/RoundTrip.antt =====
-- A marker that was generated is parsed to what it was made of, and is authentic.
use Prim.Native.Char.{Char, code}
use text.Mathlib.TextLemmas.{nil-append, cons-append, append_assoc}
use github_auto_dev.Base.{
  ℕ, String, ◌≡◌, refl, ap, ◌∙◌, some, Bool, true, false, ◌&&◌, List, [], ◌∷◌, truthy, arith,
}
use github_auto_dev.Base.Text.{◌<>◌, is_space}
use github_auto_dev.Issues.Labels.{
  IssueStatus, new, triaging, needs_info, ready, in_progress, blocked, reviewing, closed, ignored,
  status_name,
}
use github_auto_dev.Issues.Marker.{
  marker_text, ParsedMarker, literal, skip_spaces, spaces, span, not_space, is_hex, some_of, named,
  marker_here, parse_status_marker, same_bytes, hex_bytes, constant_time_hex_equal, signed_data,
  generate_status_marker, verify_status_marker,
}

-- Every character of a text passes.
abbrev pub passes : (ℕ → Bool) → String → Bool
passes p String.[] = true
passes p (String.◌∷◌ c s) = p (code c) && passes p s

literal-append : (p s : String) → literal p (p <> s) ≡ some s
unfolding literal
literal-append String.[] s = rw (nil-append s) refl
literal-append (String.◌∷◌ c p) s = rw (cons-append c p s) (ground (arith, literal-append p s))

span-append :
    (p : ℕ → Bool) (w rest : String)
    → passes p w ≡ true
    → span p rest ≡ ("", rest)
    → span p (w <> rest) ≡ (w, rest)
unfolding span
span-append p String.[] rest h stop = rw (nil-append rest) stop
span-append p (String.◌∷◌ c w) rest h stop =
    let e = span-append p w rest (ground arith) stop in
    let here : p (code c) ≡ true = ground arith in rw (cons-append c w rest, e, here) refl

-- A text that begins with a given character.
begins : (c : Char) (w x : String) → (String.◌∷◌ c w <> x) ≡ String.◌∷◌ c (w <> x)
begins c w x = cons-append c w x

skip_solid :
    (c : Char) (w x : String)
    → is_space (code c) ≡ false
    → skip_spaces (String.◌∷◌ c w <> x) ≡ String.◌∷◌ c w <> x
unfolding skip_spaces
skip_solid c w x h = rw (begins c w x, h) refl

skip_space : (x : String) → skip_spaces x ≡ x → skip_spaces (" " <> x) ≡ x
unfolding skip_spaces
skip_space x h = rw (begins " " "" x) (rw (nil-append x) h)

space_then : (x : String) → skip_spaces x ≡ x → spaces (" " <> x) ≡ some x
space_then x h = rw (begins " " "" x) (rw (nil-append x, h) refl)

span_stops : (p : ℕ → Bool) (x : String) → p 32 ≡ false → span p (" " <> x) ≡ ("", " " <> x)
unfolding span
span_stops p x h = rw (begins " " "" x) (rw h refl)

some_word :
    (p : ℕ → Bool) (w x : String)
    → passes p w ≡ true
    → truthy w ≡ true
    → p 32 ≡ false
    → some_of (span p (w <> " " <> x)) ≡ some (w, " " <> x)
some_word p w x h t stop = rw (span-append p w (" " <> x) h (span_stops p x stop), t) refl

named_lem :
    (name w x : String)
    → skip_spaces (name <> w <> " " <> x) ≡ (name <> w <> " " <> x)
    → passes not_space w ≡ true
    → truthy w ≡ true
    → named name (" " <> name <> w <> " " <> x) ≡ some (w, " " <> x)
named_lem name w x solid h t =
    rw (space_then (name <> w <> " " <> x) solid, literal-append name (w <> " " <> x))
      (some_word not_space w x h t refl)

space_out :
    (name w : String) {x y : String} → x ≡ y → ((" " <> name) <> w <> x) ≡ (" " <> name <> w <> y)
space_out name w {x} {y} e = append_assoc " " name (w <> x) ∙ ap (λ z. " " <> name <> w <> z) e

-- The marker cut at the places that the parser reads.
cut :
    (run status nonce mac : String)
    → marker_text run status nonce mac
      ≡ "<!--" <> " " <> "cgao:status-comment-marker" <> " " <> "run=" <> run <> " " <> "status="
        <> status <> " " <> "nonce=" <> nonce <> " " <> "mac=" <> mac <> " " <> "-->"
cut run status nonce mac =
    append_assoc "<!--" (" " <> "cgao:status-comment-marker") _
    ∙ ap (λ x. "<!--" <> x) (append_assoc " " "cgao:status-comment-marker" _)
    ∙ ap (λ x. "<!--" <> " " <> "cgao:status-comment-marker" <> x)
        (space_out "run=" run (
          space_out "status=" status
            (space_out "nonce=" nonce (append_assoc " " "mac=" (mac <> " " <> "-->")))))

-- What the parser reads of a marker whose parts are words.
marker_here_lem :
    (run status nonce mac : String)
    → (passes not_space run ≡ true) × (truthy run ≡ true)
    → (passes not_space status ≡ true) × (truthy status ≡ true)
    → (passes not_space nonce ≡ true) × (truthy nonce ≡ true)
    → (passes is_hex mac ≡ true) × (truthy mac ≡ true)
    → marker_here (marker_text run status nonce mac)
      ≡ some (record { run_id = run; status = status; nonce = nonce; mac = mac })
unfolding marker_here
marker_here_lem run status nonce mac hr hs hn hm =
    let x4 = "mac=" <> mac <> " " <> "-->" in
    let x3 = "nonce=" <> nonce <> " " <> x4 in
    let x2 = "status=" <> status <> " " <> x3 in
    let x1 = "run=" <> run <> " " <> x2 in
    rw
      (
        cut run status nonce mac,
        literal-append "<!--" (" " <> "cgao:status-comment-marker" <> " " <> x1),
        skip_space ("cgao:status-comment-marker" <> " " <> x1)
            (skip_solid "c" "gao:status-comment-marker" (" " <> x1) refl),
        literal-append "cgao:status-comment-marker" (" " <> x1),
        named_lem "run=" run x2 (skip_solid "r" "un=" (run <> " " <> x2) refl) hr.0 hr.1,
        named_lem "status=" status x3 (skip_solid "s" "tatus=" (status <> " " <> x3) refl) hs.0
            hs.1,
        named_lem "nonce=" nonce x4 (skip_solid "n" "once=" (nonce <> " " <> x4) refl) hn.0 hn.1,
        space_then x4 (skip_solid "m" "ac=" (mac <> " " <> "-->") refl),
        literal-append "mac=" (mac <> " " <> "-->"),
        some_word is_hex mac "-->" hm.0 hm.1 refl,
      )
      refl

parse_start :
    (s : String) (p : ParsedMarker) → marker_here s ≡ some p → parse_status_marker s ≡ some p
unfolding parse_status_marker
parse_start String.[] p h = h
parse_start (String.◌∷◌ c s) p h = rw h refl

status_word :
    (s : IssueStatus) → (passes not_space (status_name s) ≡ true) × (truthy (status_name s) ≡ true)
status_word new = (refl, refl)
status_word triaging = (refl, refl)
status_word needs_info = (refl, refl)
status_word ready = (refl, refl)
status_word in_progress = (refl, refl)
status_word blocked = (refl, refl)
status_word reviewing = (refl, refl)
status_word closed = (refl, refl)
status_word ignored = (refl, refl)

same_bytes_refl : (xs : List ℕ) → same_bytes xs xs ≡ true
same_bytes_refl [] = refl
same_bytes_refl (x ∷ xs) = ground (arith, same_bytes_refl xs)

-- A text that is one word.
abbrev pub IsWord : String → Type 0
IsWord w = (passes not_space w ≡ true) × (truthy w ≡ true)

-- What HMAC is in hexadecimal: digits, and some.
abbrev pub IsHex : String → Type 0
IsHex w = (passes is_hex w ≡ true) × (truthy w ≡ true)

module _ (hmac_hex : String → String → String) where
  -- A marker that is generated for a run and a nonce that are words is parsed to the run, the status,
  -- the nonce and the code that it was made of, and what is parsed is authentic for the repository, the
  -- issue and the author that it was made for.
  pub generated :
      (secret repo : String) (issue : ℕ) (run author : String) (status : IssueStatus)
      (nonce : String)
      → ((key text : String) → IsHex (hmac_hex key text))
      → IsWord run
      → IsWord nonce
      → (p : ParsedMarker) × (parse_status_marker
            (generate_status_marker hmac_hex secret repo issue run author status nonce)
          ≡ some p)
        × (((p.run_id ≡ run) × ((p.status ≡ status_name status) × (p.nonce ≡ nonce)))
            × (verify_status_marker hmac_hex secret repo issue p author ≡ true))
  unfolding generate_status_marker verify_status_marker constant_time_hex_equal
  generated secret repo issue run author status nonce digits is_run is_nonce =
      let mac = hmac_hex secret (signed_data repo issue run author (status_name status) nonce) in
      (
        record { run_id = run; status = status_name status; nonce = nonce; mac = mac },
        parse_start _ _ (
            marker_here_lem run (status_name status) nonce mac is_run (status_word status) is_nonce
              (digits _ _)),
        ((refl, (refl, refl)), ground (arith, same_bytes_refl (hex_bytes mac))),
      )
