-- ===== src/Design/Examples.antt =====
-- Tests of the design rules.
use dev_loop.Design.Pointer.{
  parse_doc_pointer, read_pointer, no_pointer, hub_doc, repo_file, hubdoc_shape, parent_shape,
}
use dev_loop.Common.{some, ◌≡◌, refl}
use dev_loop.Design.Pointer.{design_pointer_of, doc_slug_of, unwrap_code_span, parent_pointer}

design_pointer_of-span :
    design_pointer_of "## Context\n  design:  `hubDoc:design/foo.md`  \n"
    ≡ some "`hubDoc:design/foo.md`"
unfolding design_pointer_of
design_pointer_of-span = refl

doc_slug_of-hub : doc_slug_of "`hubDoc:design/foo.md`" ≡ some "foo"
unfolding doc_slug_of
doc_slug_of-hub = refl

doc_slug_of-path : doc_slug_of "docs/design/bar.md." ≡ some "bar"
unfolding doc_slug_of
doc_slug_of-path = refl

parent_pointer-bold : parent_pointer (unwrap_code_span "**`parent LOOP-3`**") ≡ some "LOOP-3"
unfolding parent_pointer unwrap_code_span
parent_pointer-bold = refl

hub_pointer :
    parse_doc_pointer "`hubDoc:strategy/plan.md`." ≡ read_pointer (hub_doc "strategy" "plan")
unfolding parse_doc_pointer
hub_pointer = refl

long_pointer : parse_doc_pointer "hubDoc:a/b/c" ≡ no_pointer hubdoc_shape
unfolding parse_doc_pointer
long_pointer = refl

file_pointer_read : parse_doc_pointer " docs/design/pause.md. " ≡ read_pointer (repo_file "pause")
unfolding parse_doc_pointer
file_pointer_read = refl

bare_parent : parse_doc_pointer "parent" ≡ no_pointer parent_shape
unfolding parse_doc_pointer
bare_parent = refl
