-- ===== src/Edit.antt =====
-- frontend/src/edit.rs: from a parsed line to a plan, and the readers of commands. The line editor
-- (crate `liner`) is what a reader is given: its outcome is the argument `LineResult`.
pub mod Commands
pub mod Streams
pub mod Plans
pub mod Whole
use nak.Base.{
  ℕ, if◌then◌else◌, List, [], ◌∷◌, map, Option, none, some, Bytes, bytes_eq, codes, Outcome, ok,
  fault, failed, Error, too_many_args, not_enough_args, io, panic, unwrap, ◌>>=◌,
}
use nak.Protocol.{Command, unknown, set_directory, edit}
use nak.Parse.{
  Ast, blank, cmd, sequence, redirect, Cmd, Target, file, command, RedirectClauses, done, send,
  Stream, expand_string, parse_input,
}
use nak.Prefs.{Prefs, expand}
use nak.Plan.{RemoteRef, Remotes, Plan, PlanBuilder}
use nak.Plan.Builder
use nak.Plan.Ready

unfoldable pub check_single_arg : List Bytes → Outcome Bytes
check_single_arg [] = fault (failed not_enough_args)
check_single_arg (i ∷ []) = ok i
check_single_arg (i ∷ j ∷ rest) = fault (failed too_many_args)

-- the `match` on the first word
unfoldable pub convert_words : List Bytes → Outcome Command
convert_words [] = panic
convert_words (head ∷ it) =
    if bytes_eq head (codes "cd")
    then (do dir ← check_single_arg it; ok (set_directory dir))
    else if bytes_eq head (codes "micro")
    then (do path ← check_single_arg it; ok (edit path))
    else if bytes_eq head (codes "nak")
    then panic
    else ok (unknown head it)

unfoldable pub convert_single : Prefs → Cmd → Outcome Command
convert_single prefs c = do items ← expand prefs (map expand_string c.words); convert_words items

-- `*remotes.stack.last().unwrap()`
unfoldable pub last_remote : List RemoteRef → Outcome RemoteRef
last_remote [] = panic
last_remote (r ∷ []) = ok r
last_remote (r ∷ s ∷ rest) = last_remote (s ∷ rest)

-- the arm of `Ast::Cmd`
unfoldable pub convert_cmd : Remotes → Prefs → Cmd → PlanBuilder → ℕ → ℕ → Outcome (ℕ × PlanBuilder)
convert_cmd remotes prefs c plan stdout stderr = do
  let (stdin, b) = Builder.pipe plan
  r ← last_remote remotes.stack
  single ← convert_single prefs c
  b' ← Builder.add_command b r single stdin stdout stderr
  ok (stdin, b')

-- The streams of what stands in front of a clause, whose target reads from `stdin`.
unfoldable pub redirected : Stream → ℕ → PlanBuilder → ℕ × ℕ × PlanBuilder
redirected Stream.stdout stdin plan = let (p, b) = Builder.pipe plan in (stdin, p, b)
redirected Stream.stderr stdin plan = let (p, b) = Builder.pipe plan in (p, stdin, b)

-- The clauses are walked from the last to the first.
unfoldable mutual
  pub convert_ast : Ast → Remotes → Prefs → PlanBuilder → ℕ → ℕ → Outcome (ℕ × PlanBuilder)
  convert_ast blank remotes prefs plan stdout stderr = ok (stdout, plan)
  convert_ast (cmd c) remotes prefs plan stdout stderr =
      convert_cmd remotes prefs c plan stdout stderr
  convert_ast (sequence a rest) remotes prefs plan stdout stderr = panic
  convert_ast (redirect a ts) remotes prefs plan stdout stderr = do
    (out, err, b) ← convert_clauses ts remotes prefs plan stdout stderr
    convert_ast a remotes prefs b out err

  pub convert_target : Target → Remotes → Prefs → PlanBuilder → ℕ → ℕ → Outcome (ℕ × PlanBuilder)
  convert_target (file path) remotes prefs plan stdout stderr = do
    r ← last_remote remotes.stack
    ok (Builder.add_file_output plan r (expand_string path))
  convert_target (command a) remotes prefs plan stdout stderr =
      convert_ast a remotes prefs plan stdout stderr

  pub convert_clauses :
      RedirectClauses → Remotes → Prefs → PlanBuilder → ℕ → ℕ → Outcome (ℕ × ℕ × PlanBuilder)
  convert_clauses done remotes prefs plan stdout stderr = ok (stdout, stderr, plan)
  convert_clauses (send s t ts) remotes prefs plan stdout stderr = do
    (out, err, b) ← convert_clauses ts remotes prefs plan stdout stderr
    (stdin, b') ← convert_target t remotes prefs b out err
    ok (redirected s stdin b')

unfoldable pub parse_command_simple : Remotes → Prefs → Bytes → Outcome Plan
parse_command_simple remotes prefs input = do
  a ← parse_input input
  let (stdout, b₁) = Builder.pipe Builder.new
  let (stderr, b₂) = Builder.pipe b₁
  (stdin, b₃) ← convert_ast a remotes prefs b₂ stdout stderr
  b₄ ← Builder.add_stdout (Builder.set_stdin b₃ (some stdin)) stdout
  b₅ ← Builder.add_stderr b₄ stderr
  ok (Builder.build b₅)

abbrev pub root_remotes : Remotes
root_remotes = record { stack = record { index = 0 } ∷ [] }

abbrev pub exit_plan : Plan
exit_plan = Builder.build (Builder.exit Builder.new (record { index = 0 }))

pub record SingleCommandReader : Type 0 where
  pub prefs : Prefs
  pub text : Option Bytes

-- `SingleCommandReader::get_command`, on the text that it takes
unfoldable pub single_command : Prefs → Option Bytes → Outcome Plan
single_command prefs (some text) = parse_command_simple root_remotes prefs text
single_command prefs none = ok exit_plan

unfoldable pub get_single_command : SingleCommandReader → Outcome (Plan × SingleCommandReader)
get_single_command r = do plan ← single_command r.prefs r.text; ok (plan, record r { text = none })

-- What the line editor comes back with.
pub data LineResult : Type 0 where
  entered : Bytes → LineResult
  interrupted : LineResult
  unexpected_eof : LineResult
  broken : LineResult

-- `SimpleReader::get_command`; `push` adds the line to the editor's history.
unfoldable pub get_simple_command :
    {History : Type 0}
    → (History → Bytes → Outcome History)
    → Prefs
    → History
    → LineResult
    → Outcome (Plan × History)
get_simple_command push prefs h (entered res) = do
  plan ← parse_command_simple root_remotes prefs res
  h' ← push h res
  ok (plan, h')
get_simple_command push prefs h interrupted = do plan ← Ready.empty; ok (plan, h)
get_simple_command push prefs h unexpected_eof = ok (exit_plan, h)
get_simple_command push prefs h broken = fault (failed io)
