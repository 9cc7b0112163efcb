-- ===== src/Tests/CommandLines.antt =====
-- Instances of the theorems about the frontend: the parser, the aliases and the plans.
use nak.Base.{
  contains, ◌≡◌, ◌↔◌, refl, List, [], ◌∷◌, map, none, some, Bytes, codes, ok, All, Ends, Returns,
  Guarded, Hazardous, arith,
}
use nak.Protocol.{unknown}
use nak.Parse.{
  Cmd, normal, cmd, redirect, send, command, done, Stream, Ast, parse_input, expand_string,
}
use nak.Parse.Words.{Suspect}
use nak.Parse.Shape.{IsLine}
use nak.Parse.Total.{parse_input-Ends}
use nak.Parse.RoundTrip.{print_words, parse_input-print_words}
use nak.Prefs.{Prefs, not_found, load, expand}
use nak.Prefs.Safe.{IsWellFormed, expand-Returns}
use nak.Prefs.Prefix.{Prefix, prefix_rule, replace_prefix, expand-replace_prefix}
use nak.Plan.{PlanBuilder}
use nak.Plan.Builder
use nak.Plan.Execution.{after_steps, after_step, can_read, can_write}
use nak.Plan.Simulates.{Commanded, add_command-Commanded}
use nak.Edit.{convert_single, parse_command_simple, root_remotes, last_remote}
use nak.Edit.Commands.{IsRefused, convert_single-IsRefused}
use nak.Edit.Streams.{Streams}
use nak.Edit.Whole.{Blame, IsExecutable, parse_command_simple-IsExecutable}

abbrev piped : Bytes
piped = codes "ls -l | wc; pwd"

parse_input-Ends_example : Ends (Suspect piped) IsLine (parse_input piped)
parse_input-Ends_example = parse_input-Ends piped

-- the line `"a b" "|;"`
parse_input-print_words_example :
    parse_input (print_words (codes "a b") (codes "|;" ∷ []))
    ≡ ok (cmd (record { remote = none; words = map normal (codes "a b" ∷ codes "|;" ∷ []) }))
unfolding contains
parse_input-print_words_example =
    parse_input-print_words (codes "a b") (codes "|;" ∷ []) (refl, (refl, tt))

-- the alias `l` of contrib/prefs.nak
abbrev list_alias : Prefix
list_alias = record { from = codes "l" ∷ []; to = codes "ls" ∷ codes "-l" ∷ [] }

abbrev with_alias : Prefs
with_alias = record { aliases = map prefix_rule (list_alias ∷ []) }

with_alias-IsWellFormed : All IsWellFormed with_alias.aliases
with_alias-IsWellFormed = (record { can_find = (refl, refl, tt); can_build = (refl, tt) }, tt)

expand-Returns_example : Returns (λ ws. Unit) (expand with_alias (codes "l" ∷ codes "src" ∷ []))
expand-Returns_example =
    expand-Returns with_alias (codes "l" ∷ codes "src" ∷ []) with_alias-IsWellFormed

expand-replace_prefix_example :
    expand with_alias (codes "l" ∷ codes "src" ∷ [])
    ≡ ok (replace_prefix (list_alias ∷ []) (codes "l" ∷ codes "src" ∷ []))
expand-replace_prefix_example =
    expand-replace_prefix (list_alias ∷ []) (codes "l" ∷ codes "src" ∷ [])

abbrev list_cmd : Cmd
list_cmd = record { remote = none; words = normal (codes "l") ∷ normal (codes "src") ∷ [] }

convert_single-IsRefused_example :
    (items : List Bytes) × (expand with_alias (map expand_string list_cmd.words) ≡ ok items)
    × (Hazardous (convert_single with_alias list_cmd) ↔ IsRefused items)
convert_single-IsRefused_example =
    convert_single-IsRefused with_alias list_cmd with_alias-IsWellFormed

abbrev two_pipes : PlanBuilder
two_pipes = (Builder.pipe (Builder.pipe (Builder.pipe Builder.new).1).1).1

add_command-Commanded_example :
    Returns
      (Commanded two_pipes 2 0 1)
      (Builder.add_command two_pipes (record { index = 0 }) (unknown (codes "ls") []) 2 0 1)
unfolding Builder.pipe after_steps after_step can_read can_write
add_command-Commanded_example =
    add_command-Commanded two_pipes (record { index = 0 }) (unknown (codes "ls") []) 2 0 1 refl refl
      refl refl (λ e. omega arith)

root_remotes-last : last_remote (root_remotes.stack) ≡ ok (record { index = 0 })
unfolding last_remote
root_remotes-last = refl

abbrev piped_ast : Ast
piped_ast = redirect (cmd list_cmd) (send Stream.stdout (command (cmd list_cmd)) done)

parse_command_simple-IsExecutable_example :
    Guarded
      (Blame with_alias piped)
      IsExecutable
      (parse_command_simple root_remotes with_alias piped)
parse_command_simple-IsExecutable_example =
    parse_command_simple-IsExecutable root_remotes with_alias root_remotes-last piped

-- where there is no file, there are no aliases
load_missing :
    load (some (codes "/home/me")) (λ path. not_found) (λ s. none) ≡ ok (record { aliases = [] })
unfolding load
load_missing = refl
