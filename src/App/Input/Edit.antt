-- ===== src/App/Input/Edit.antt =====
-- The line that `read_line` of src/ui.rs returns, as the line that is edited on the screen.
use amt_uefi_boot_app.Outcome.{ok, Outcome}
use amt_uefi_boot_app.Prelude.{
  List, ℕ, take, Bool, ◌∷◌, ◌≡◌, if◌then◌else◌, length, ltb, true, ◌==◌, [], not, ◌≤◌, ◌-◌, ◌||◌,
  leb, ◌&&◌, ◌++◌, false, arith, length-take, Bool-cases, inl, inr, refl, ap, ◌<◌, subst,
  length-append, ◌∙◌, set, sym, take-take, suc, leb_false→lt, take-set_end, length-set,
}
use amt_uefi_boot_app.App.Input.{read_loop, read_line}

abbrev without_last : List ℕ → List ℕ
without_last line = take (length line - 1) line

abbrev is_erase : ℕ → Bool
is_erase code = code == 0x08 || code == 0x7F

abbrev is_enter : ℕ → Bool
is_enter code = code == 0x0D || code == 0x0A

-- One key, for a line of at most `size` characters.
abbrev edited : ℕ → ℕ → List ℕ → List ℕ
edited size code line =
    if is_erase code
    then without_last line
    else if (ltb code 0x20 || ltb 0x7E code) || leb size (length line)
    then line
    else line ++ (code ∷ [])

abbrev pub edit : ℕ → List ℕ → List ℕ → List ℕ
edit size [] line = line
edit size (code ∷ keys) line = edit size keys (edited size code line)

abbrev pub no_enter : List ℕ → Bool
no_enter [] = true
no_enter (code ∷ keys) = not (is_enter code) && no_enter keys

-- The buffer begins with the line.
abbrev Shows : List ℕ → List ℕ → Type 0
Shows line buf = take (length line) buf ≡ line

-- What the loop does from a place on, if the line shown there is edited by `keys`.
abbrev Returned : ℕ → List ℕ → List ℕ → Outcome ℕ × List ℕ → Type 0
Returned size keys line (o, out) =
    let shown = edit size keys line in (o ≡ ok (length shown)) × Shows shown out

without_last-Shows : (line buf : List ℕ) → Shows line buf → Shows (without_last line) buf
without_last-Shows line buf s =
    ap (λ n. take n buf) {x = length (without_last line)} {y = length line - 1}
      (omega (arith, length-take (length line - 1) line))
    ∙ sym (take-take (length line - 1) (length line) buf (omega arith))
    ∙ ap (take (length line - 1)) s

put-Shows :
    (line buf : List ℕ) (c : ℕ)
    → length line < length buf
    → Shows line buf
    → Shows (line ++ (c ∷ [])) (set buf (length line) c)
put-Shows line buf c room s =
    ap (λ n. take n (set buf (length line) c)) {x = length (line ++ (c ∷ []))}
      {y = suc (length line)} (omega (arith, length-append line (c ∷ [])))
    ∙ take-set_end (length line) buf c room
    ∙ ap (λ xs. xs ++ (c ∷ [])) s

read_loop_lem :
    (keys rest : List ℕ) (code : ℕ) (line buf : List ℕ)
    → no_enter keys ≡ true
    → is_enter code ≡ true
    → length line ≤ length buf
    → Shows line buf
    → Returned (length buf) keys line (read_loop (keys ++ (code ∷ rest)) (length line) buf)
unfolding read_loop
read_loop_lem [] rest code line buf h e fits s = rw e (refl, s)
read_loop_lem (c ∷ keys) rest code line buf h e fits s =
    let more = read_loop_lem keys rest code in
    let plain : is_enter c ≡ false = ground (arith, h) in
    let tail : no_enter keys ≡ true = ground (arith, h) in
    let less = length-take (length line - 1) line in
    elim (Bool-cases (is_erase c)) [
      | inl f ↦
          let at : length line - 1 ≡ length (without_last line) = omega (arith, less) in
          rw (plain, f)
            (subst
              (λ n.
                Returned (length buf) keys (without_last line)
                  (read_loop (keys ++ (code ∷ rest)) n buf))
              (sym at)
              (more (without_last line) buf tail e (omega (arith, less))
                (without_last-Shows line buf s)))
      | inr f ↦ elim (Bool-cases (ltb c 0x20 || ltb 0x7E c)) [
        | inl g ↦ rw (plain, f, g) (more line buf tail e fits s)
        | inr g ↦ elim (Bool-cases (leb (length buf) (length line))) [
          | inl k ↦ rw (plain, f, g, k) (more line buf tail e fits s)
          | inr k ↦
              let room = leb_false→lt _ _ k in
              let line' = line ++ (c ∷ []) in
              let buf' = set buf (length line) c in
              let size = length-set buf (length line) c in
              let at = length-append line (c ∷ []) in
              rw (plain, f, g, k)
                (subst
                  (λ n. Returned (length buf) keys line' (read_loop (keys ++ (code ∷ rest)) n buf'))
                  at
                  (subst
                    (λ n.
                      Returned n keys line' (read_loop (keys ++ (code ∷ rest)) (length line') buf'))
                    size
                    (more line' buf' tail e (omega (arith, at, size, room))
                      (put-Shows line buf c room s))))
        ]
      ]
    ]

edited-fits :
    (size code : ℕ) (line : List ℕ) → length line ≤ size → length (edited size code line) ≤ size
edited-fits size code line h =
    ground (arith, length-take (length line - 1) line, length-append line (code ∷ []))

edit-fits :
    (size : ℕ) (keys line : List ℕ) → length line ≤ size → length (edit size keys line) ≤ size
edit-fits size [] line h = h
edit-fits size (code ∷ keys) line h =
    edit-fits size keys (edited size code line) (edited-fits size code line h)

-- Up to the first Enter, `read_line` edits a line: a printable character goes to its end while it is
-- shorter than the buffer, an erase key takes the last one away, any other key does nothing. It
-- returns the length of that line, which is at most that of the buffer, and the buffer begins with
-- the line. The keys behind the Enter play no part.
pub read_line_lem :
    (keys rest : List ℕ) (code : ℕ) (buf : List ℕ)
    → no_enter keys ≡ true
    → is_enter code ≡ true
    → let line = edit (length buf) keys [] in
      let (o, out) = read_line (keys ++ (code ∷ rest)) buf in
      (o ≡ ok (length line)) × (take (length line) out ≡ line) × (length line ≤ length buf)
read_line_lem keys rest code buf h e =
    let (o, shows) = read_loop_lem keys rest code [] buf h e (omega arith) refl in
    (o, shows, edit-fits (length buf) keys [] (omega arith))
