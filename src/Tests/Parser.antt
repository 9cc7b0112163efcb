-- ===== src/Tests/Parser.antt =====
-- Command lines of frontend/tests/parser.json, and instances of the parser's theorems.
use Prim.Native.String.{String}
use nak.Base.{◌≡◌, refl, List, [], ◌∷◌, none, codes, ok, panic}
use nak.Parse.{
  Word, Cmd, normal, blank, cmd, sequence, redirect, file, command, no_more, then_run, done, send,
  wait, Stream, parse_input, parse_line, skip_whitespace, skip_loop, parse_seq, seq_loop,
  parse_pipe, pipe_loop, parse_clause, parse_piped, parse_output, parse_cmd, cmd_loop, parse_word,
  parse_bare, word_loop, parse_quote, quote_loop, pipe_continue, parse_next,
}

abbrev words : List Word → Cmd
words ws = record { remote = none; words = ws }

abbrev word : String → Word
word s = normal (codes s)

parse-blank : parse_input (codes "  ") ≡ ok blank
unfolding parse_input parse_line skip_whitespace skip_loop
parse-blank = refl

parse-two : parse_input (codes " a  b ") ≡ ok (cmd (words (word "a" ∷ word "b" ∷ [])))
unfolding parse_input parse_line skip_whitespace skip_loop parse_seq seq_loop parse_pipe pipe_loop
    parse_clause parse_cmd cmd_loop parse_word parse_bare word_loop pipe_continue parse_next
parse-two = refl

parse-all :
    parse_input (codes "a \"b ;\" | c > d; e")
    ≡ ok (
        sequence
          (redirect (cmd (words (word "a" ∷ word "b ;" ∷ []))) (
            send Stream.stdout
              (command (cmd (words (word "c" ∷ []))))
              (send Stream.stdout (file (word "d")) done)))
          (then_run wait (cmd (words (word "e" ∷ []))) no_more))
unfolding parse_input parse_line skip_whitespace skip_loop parse_seq seq_loop parse_pipe pipe_loop
    parse_clause parse_piped parse_output parse_cmd cmd_loop parse_word parse_bare word_loop
    parse_quote quote_loop pipe_continue parse_next
parse-all = refl

parse-unclosed : parse_input (codes "a \"b") ≡ panic
unfolding parse_input parse_line skip_whitespace skip_loop parse_seq seq_loop parse_pipe pipe_loop
    parse_clause parse_piped parse_output parse_cmd cmd_loop parse_word parse_bare word_loop
    parse_quote quote_loop pipe_continue parse_next
parse-unclosed = refl
