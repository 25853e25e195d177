-- ===== src/Ticket/Examples/Rulings.antt =====
-- Rulings on the board.
use dev_loop.Common.{String, true, false, ◌≡◌, refl, ◌⊎◌}
use dev_loop.Common.Text.{is_empty, trim}
use dev_loop.Store.{human_blocked, find_ticket, actor_is_human, approve}
use dev_loop.Ticket.Env.{off}
use dev_loop.Ticket.Gates.States.{human_blocked_mode_for}
use dev_loop.Ticket.Update.{Write, ok}
use dev_loop.Ticket.Rulings.{ParsedRuling, parsed, parse_ruling, ruling_body, is_ruling_shaped}
use dev_loop.Ticket.Rulings.Laws.{parse_ruling-ruling_body}
use dev_loop.Ticket.Comments.{add_comment, insert_comment, record_ruling}
use dev_loop.Ticket.Comments.Authors.{ruling_by_owner}
use dev_loop.Ticket.Examples.Board.{env, store_of, operator, pm}
use dev_loop.Ticket.Examples.Updates.{board}

abbrev ruling_text : String
ruling_text = "Ruling: approve — ship it"

abbrev ruling : Write
ruling = add_comment env (board human_blocked) "p" "operator" "LOOP-1" ruling_text

ruling_ok : ruling ≡ ok (store_of ruling) "LOOP-1"
unfolding add_comment find_ticket trim dev_loop.Ticket.Comments.ruling_comment_policy parse_ruling
    actor_is_human
ruling_ok = refl

ruling_shape : is_ruling_shaped ruling_text ≡ true
unfolding is_ruling_shaped
ruling_shape = refl

ruling_by_owner_example :
    ((actor_is_human (board human_blocked) "operator" ≡ true)
      ⊎ (operator ≡ pm) × (human_blocked_mode_for env (board human_blocked) "p" ≡ off))
    × (r : ParsedRuling) × (parse_ruling ruling_text ≡ parsed r)
    × (store_of ruling
        ≡ record_ruling env
            (insert_comment env (board human_blocked) "p" "operator" "LOOP-1" ruling_text)
            "p"
            "operator"
            "LOOP-1"
            r)
ruling_by_owner_example =
    ruling_by_owner env (board human_blocked) "p" "operator" "LOOP-1" ruling_text (store_of ruling)
      "LOOP-1" ruling_ok ruling_shape

a_reason : is_empty (trim " ship it ") ≡ false
unfolding trim
a_reason = refl

parse_ruling-ruling_body_example :
    parse_ruling (ruling_body approve " ship it ")
    ≡ parsed (record { verdict = approve; reason = trim " ship it " })
parse_ruling-ruling_body_example = parse_ruling-ruling_body approve " ship it " a_reason
