-- ===== src/Ticket/Acceptance.antt =====
-- The completeness and unlanded-work checks at → Done: hub/src/ac-gate.ts.
use Prim.Native.Char.{code}
use dev_loop.Common.{
  ℕ, String, Bool, true, false, ◌&&◌, ◌||◌, not, Option, none, some, List, [], ◌∷◌, ◌==◌, filter,
  length, leb, eqb, if◌then◌else◌, ◌or_else◌, is_nil, is_some, includes,
}
use dev_loop.Common.Text.{
  is_empty, is_blank, trim, skip, drop_span, after_prefix, strip_prefix, line_texts, output_lines,
  has_part, utf16_length,
}
use dev_loop.Store.{State, done}
use dev_loop.Ticket.Env.{Git, Residue, Rejection, unchecked_boxes, unlanded_work}

pub record AcBox : Type 0 where
  pub checked : Bool
  pub text : String

starts_blank : String → Bool
starts_blank String.[] = false
starts_blank (String.◌∷◌ c s) = is_blank (code c)

-- `- ` or `* `: what stands behind the bullet and its blanks.
after_bullet : String → Option String
unfolding skip starts_blank
after_bullet String.[] = none
after_bullet (String.◌∷◌ c s) =
    if (eqb (code c) b'-' || eqb (code c) b'*') && starts_blank s
    then some (skip is_blank s)
    else none

-- `CHECKBOX_RE` on one line.
box_of_line : String → Option AcBox
unfolding after_bullet skip after_prefix strip_prefix trim
box_of_line line = elim (after_bullet (skip is_blank line)) [
  | none ↦ none
  | some rest ↦ elim (after_prefix "[x]" rest) [
    | some text ↦ some (record { checked = true; text = trim text })
    | none ↦ elim (strip_prefix "[ ]" rest) [
      | some text ↦ some (record { checked = false; text = trim text })
      | none ↦ none
    ]
  ]
]

boxes_of : List String → List AcBox
boxes_of [] = []
boxes_of (l ∷ ls) = elim (box_of_line l) [ none ↦ boxes_of ls | some b ↦ b ∷ boxes_of ls ]

unfoldable pub parse_ac_boxes : String → List AcBox
unfolding boxes_of box_of_line line_texts
parse_ac_boxes description = boxes_of (line_texts description)

-- `AC-waived:` and what stands behind it on the line.
waiver_of_line : String → Option String
unfolding skip after_prefix
waiver_of_line line = elim (after_prefix "AC-waived:" (skip is_blank line)) [
  | none ↦ none
  | some rest ↦ if is_empty rest then none else some rest
]

first_waiver : List String → Option String
first_waiver [] = none
first_waiver (l ∷ ls) = waiver_of_line l or_else first_waiver ls

-- No `—`, `–`, `:` or `-`.
abbrev no_separator : ℕ → Bool
no_separator c = not (eqb c 0x2014 || eqb c 0x2013 || eqb c b':' || eqb c b'-')

-- The text behind the first separator.
behind_separator : String → String
unfolding trim drop_span
behind_separator rest = elim (drop_span no_separator rest) [
  | String.[] ↦ ""
  | String.◌∷◌ c s ↦ trim s
]

unfoldable pub waiver_reason : List String → Option String
unfolding first_waiver waiver_of_line line_texts trim behind_separator utf16_length
waiver_reason [] = none
waiver_reason (body ∷ bodies) = elim (first_waiver (line_texts body)) [
  | none ↦ waiver_reason bodies
  | some m ↦
      let later = waiver_reason bodies in
      let rest = trim m in if leb 3 (utf16_length (behind_separator rest)) then some rest else later
]

abbrev pub is_done : State → Bool
is_done done = true
is_done _ = false

pub record AcGateInput : Type 0 where
  pub description : String
  pub to_state : State
  pub from_state : State
  pub actor : String
  pub comment_bodies : List String
  pub enabled : Bool

unfoldable pub ac_completeness_rejection : AcGateInput → Option Rejection
ac_completeness_rejection inp =
    let boxes = parse_ac_boxes inp.description in
    let unchecked = filter (λ b. not b.checked) boxes in
    if not inp.enabled
      || not (is_done inp.to_state)
      || is_done inp.from_state
      || inp.actor == "operator"
      || is_nil boxes
      || is_nil unchecked
      || is_some (waiver_reason inp.comment_bodies)
    then none
    else some (unchecked_boxes (length unchecked) (length boxes))

short_branch : String → String
unfolding strip_prefix
short_branch ref = elim (strip_prefix "refs/heads/" ref or_else strip_prefix "refs/remotes/" ref) [
  | none ↦ ref
  | some b ↦ b
]

-- The questions about a ref whose tip is new; `none` where one of them ends the round.
residue_of : Git → String → String → String → Option Residue
unfolding output_lines trim short_branch
residue_of git root base ref = elim (git.rev_list root base ref) [
  | none ↦ none
  | some ahead ↦ elim (git.merge_base root base ref) [
    | none ↦ none
    | some fork ↦ elim (git.diff_names root (trim fork) ref) [
      | none ↦ none
      | some names ↦ elim (git.diff_names_of root base ref (output_lines names)) [
        | none ↦ none
        | some left ↦
            if is_nil (output_lines ahead)
              || is_empty (trim fork)
              || is_nil (output_lines names)
              || is_nil (output_lines left)
            then none
            else some (record { branch = short_branch ref; paths = output_lines left })
      ]
    ]
  ]
]

add_residue : Option Residue → List Residue → List Residue
add_residue none rs = rs
add_residue (some r) rs = r ∷ rs

-- The loop over the refs, with the tips that it has seen.
residues : Git → String → String → List String → List String → List Residue
unfolding trim residue_of add_residue
residues git root base seen [] = []
residues git root base seen (ref ∷ refs) = elim (git.rev_parse root ref) [
  | none ↦ residues git root base seen refs
  | some out ↦
      let skipped = residues git root base seen refs in
      let later = residues git root base (trim out ∷ seen) refs in
      if is_empty (trim out) || includes (trim out) seen
      then skipped
      else add_residue (residue_of git root base ref) later
]

unfoldable pub unlanded_branch_residue : Git → String → String → String → List Residue
unfolding residues output_lines has_part
unlanded_branch_residue git root base id = elim (git.for_each_ref root) [
  | none ↦ []
  | some out ↦ residues git root base [] (filter (has_part id) (output_lines out))
]

pub record UnlandedGateInput : Type 0 where
  pub id : String
  pub to_state : State
  pub from_state : State
  pub actor : String
  pub comment_bodies : List String
  pub repo_root : Option String
  pub base_ref : Option String
  pub enabled : Bool

unlanded_at : Git → String → Option String → Option String → Option Rejection
unlanded_at git id (some root) (some base) =
    let stranded = unlanded_branch_residue git root base id in
    if is_nil stranded then none else some (unlanded_work stranded)
unlanded_at git id _ _ = none

unfoldable pub unlanded_work_rejection : Git → UnlandedGateInput → Option Rejection
unfolding unlanded_at
unlanded_work_rejection git inp =
    if not inp.enabled
      || not (is_done inp.to_state)
      || is_done inp.from_state
      || inp.actor == "operator"
      || is_some (waiver_reason inp.comment_bodies)
    then none
    else unlanded_at git inp.id inp.repo_root inp.base_ref
