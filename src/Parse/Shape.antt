-- ===== src/Parse/Shape.antt =====
-- The trees that the parser builds: commands, pipelines of commands and files, and sequences of
-- pipelines. Nothing else is nested.
use nak.Base.{◌≡◌, ◌≢◌, [], none}
use nak.Parse.{
  Ast, blank, cmd, sequence, redirect, RedirectClauses, done, send, Stream, Target, command, file,
  SequenceClauses, no_more, then_run, wait, also, otherwise, Cmd,
}

pub record IsPlain (c : Cmd) : Type 0 where
  pub local : c.remote ≡ none
  pub words_ne_nil : c.words ≢ []

abbrev pub IsCmd : Ast → Type 0
IsCmd (cmd c) = IsPlain c
IsCmd _ = ⊥

abbrev pub IsTarget : Target → Type 0
IsTarget (file w) = Unit
IsTarget (command a) = IsCmd a

abbrev pub AreClauses : RedirectClauses → Type 0
AreClauses done = Unit
AreClauses (send Stream.stdout t ts) = IsTarget t × AreClauses ts
AreClauses (send Stream.stderr t ts) = ⊥

abbrev pub IsPipeline : Ast → Type 0
IsPipeline (cmd c) = IsPlain c
IsPipeline (redirect a ts) = IsCmd a × AreClauses ts × (ts ≢ done)
IsPipeline _ = ⊥

abbrev pub ArePipelines : SequenceClauses → Type 0
ArePipelines no_more = Unit
ArePipelines (then_run wait a rest) = IsPipeline a × ArePipelines rest
ArePipelines (then_run also a rest) = ⊥
ArePipelines (then_run otherwise a rest) = ⊥

abbrev pub IsLine : Ast → Type 0
IsLine blank = Unit
IsLine (cmd c) = IsPlain c
IsLine (redirect a ts) = IsPipeline (redirect a ts)
IsLine (sequence a rest) = IsPipeline a × ArePipelines rest × (rest ≢ no_more)
