-- ===== src/Mlock/HotPages.antt =====
-- src/lib/mlock/ldlib.c: `load_hot_pages` and `is_hot_page`.
use kumf.Base.{
  ℕ, ltb, ◌==◌, if◌then◌else◌, Bool, false, ◌||◌, List, [], ◌∷◌, ◌++◌, Option, none, some, length,
  ◌≤◌, arith, length-append,
}
use kumf.CText.{read_lines, strtoul_hex}
use kumf.Mlock.Pages.{page_floor}

abbrev pub max_hot_pages : ℕ
max_hot_pages = 8192

-- `while (*p == ' ' || *p == '\t') p++;`
unfoldable pub skip_blank : List ℕ → List ℕ
skip_blank [] = []
skip_blank (c ∷ s) = if c == 32 || c == 9 then skip_blank s else c ∷ s

abbrev pub is_skipped : List ℕ → Bool
is_skipped [] = false
is_skipped (c ∷ s) = c == 35 || c == 10

-- One round of the loop; a full table ends it, and so takes nothing more.
unfoldable pub load_page : List ℕ → List ℕ → List ℕ
unfolding skip_blank
load_page line pages =
    let p = skip_blank line in
    let addr = strtoul_hex p in
    if ltb (length pages) max_hot_pages
    then if is_skipped p || addr == 0 then pages else pages ++ addr ∷ []
    else pages

unfoldable pub load_pages : List (List ℕ) → List ℕ → List ℕ
load_pages [] pages = pages
load_pages (line ∷ lines) pages = load_pages lines (load_page line pages)

-- The table after the file, `none` if it cannot be opened.
unfoldable pub load_hot_pages : Option (List ℕ) → List ℕ → List ℕ
load_hot_pages file pages = elim file [
  | none ↦ pages
  | some text ↦ load_pages (read_lines 127 (length text) text) pages
]

unfoldable pub is_hot_page : List ℕ → ℕ → Bool
is_hot_page [] addr = false
is_hot_page (p ∷ ps) addr = p == page_floor addr || is_hot_page ps addr

load_page_bound :
    (line pages : List ℕ)
    → length pages ≤ max_hot_pages
    → length (load_page line pages) ≤ max_hot_pages
unfolding load_page
load_page_bound line pages h =
    ground (arith, length-append pages (strtoul_hex (skip_blank line) ∷ []))

load_pages_bound :
    (lines : List (List ℕ)) (pages : List ℕ)
    → length pages ≤ max_hot_pages
    → length (load_pages lines pages) ≤ max_hot_pages
unfolding load_pages
load_pages_bound [] pages h = h
load_pages_bound (line ∷ lines) pages h = load_pages_bound lines _ (load_page_bound line pages h)

-- Whatever the file of hot pages holds, load_hot_pages keeps the table within its 8192 places.
pub load_hot_pages_bound :
    (file : Option (List ℕ)) (pages : List ℕ)
    → length pages ≤ max_hot_pages
    → length (load_hot_pages file pages) ≤ max_hot_pages
unfolding load_hot_pages
load_hot_pages_bound none pages h = h
load_hot_pages_bound (some text) pages h =
    load_pages_bound (read_lines 127 (length text) text) pages h
