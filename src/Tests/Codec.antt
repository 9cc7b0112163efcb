-- ===== src/Tests/Codec.antt =====
-- A format for requests and responses that can be read back: an instance of what the theorems ask
-- of the JSON library. A value is written in front of the rest of the line.
use nak.Base.{
  ℕ, zero, suc, ◌≡◌, refl, ap, ◌∙◌, List, [], ◌∷◌, ◌++◌, length, Option, none, some, Bytes,
}
use nak.Protocol.{
  Command, unknown, set_directory, get_directory, edit, success, failure, Condition, PipeMessage,
  begin_read, payload, read, closed, RemoteRequest, begin_command, cancel_command, begin_remote,
  end_remote, list_directory, RemoteResponse, remote_ready, command_done, directory_listing,
  edit_request, Request, Response,
}
use nak.Protocol.Endpoint.{Json}
use nak.Backend.Relay.Delivery.{ReadsBack}

abbrev Reader : Type 0 → Type 0
Reader A = List ℕ → Option (A × List ℕ)

abbrev Writer : Type 0 → Type 0
Writer A = A → List ℕ → List ℕ

abbrev Inverse : {A : Type 0} → Writer A → Reader A → Type 0
Inverse {A} p r = (a : A) (s : List ℕ) → r (p a s) ≡ some (a, s)

abbrev then_read : {A B : Type 0} → Option (A × List ℕ) → (A → Reader B) → Option (B × List ℕ)
then_read none f = none
then_read (some (a, s)) f = f a s

abbrev yields : {A : Type 0} → A → Reader A
yields a s = some (a, s)

abbrev read_num : Reader ℕ
read_num [] = none
read_num (n ∷ s) = some (n, s)

read_many : {A : Type 0} → Reader A → ℕ → Reader (List A)
read_many r zero s = some ([], s)
read_many r (suc n) s =
    then_read (r s) (λ a s₁. then_read (read_many r n s₁) (λ xs. yields (a ∷ xs)))

abbrev write_many : {A : Type 0} → Writer A → Writer (List A)
write_many p [] s = s
write_many p (a ∷ xs) s = p a (write_many p xs s)

abbrev write_list : {A : Type 0} → Writer A → Writer (List A)
write_list p xs s = length xs ∷ write_many p xs s

abbrev read_list : {A : Type 0} → Reader A → Reader (List A)
read_list r s = then_read (read_num s) (read_many r)

read_many-write_many :
    {A : Type 0} (p : Writer A) (r : Reader A)
    → Inverse p r
    → (xs : List A) (s : List ℕ) → read_many r (length xs) (write_many p xs s) ≡ some (xs, s)
unfolding read_many
read_many-write_many p r h [] s = refl
read_many-write_many p r h (a ∷ xs) s =
    rw (h a (write_many p xs s)) rw (read_many-write_many p r h xs s) refl

abbrev write_num : Writer ℕ
write_num n s = n ∷ s

abbrev write_bytes : Writer Bytes
write_bytes = write_list write_num

abbrev read_bytes : Reader Bytes
read_bytes = read_list read_num

bytes-Inverse : Inverse write_bytes read_bytes
bytes-Inverse bs s = read_many-write_many write_num read_num (λ n s₁. refl) bs s

bytes_list-Inverse : Inverse (write_list write_bytes) (read_list read_bytes)
bytes_list-Inverse bs s = read_many-write_many write_bytes read_bytes bytes-Inverse bs s

abbrev write_command : Writer Command
write_command (unknown path args) s = 0 ∷ write_bytes path (write_list write_bytes args s)
write_command (set_directory d) s = 1 ∷ write_bytes d s
write_command get_directory s = 2 ∷ s
write_command (edit p) s = 3 ∷ write_bytes p s

abbrev read_command : Reader Command
read_command [] = none
read_command (zero ∷ s) =
    then_read (read_bytes s)
      (λ path s₁. then_read (read_list read_bytes s₁) (λ args. yields (unknown path args)))
read_command (suc zero ∷ s) = then_read (read_bytes s) (λ d. yields (set_directory d))
read_command (suc (suc zero) ∷ s) = some (get_directory, s)
read_command (suc (suc (suc n)) ∷ s) = then_read (read_bytes s) (λ p. yields (edit p))

command-Inverse : Inverse write_command read_command
command-Inverse (unknown path args) s =
    rw (bytes-Inverse path (write_list write_bytes args s)) rw (bytes_list-Inverse args s) refl
command-Inverse (set_directory d) s = rw (bytes-Inverse d s) refl
command-Inverse get_directory s = refl
command-Inverse (edit p) s = rw (bytes-Inverse p s) refl

abbrev write_condition : Writer (ℕ × Condition)
write_condition (p, none) s = p ∷ 0 ∷ s
write_condition (p, some success) s = p ∷ 1 ∷ s
write_condition (p, some failure) s = p ∷ 2 ∷ s

abbrev read_condition : Reader (ℕ × Condition)
read_condition [] = none
read_condition (p ∷ []) = none
read_condition (p ∷ zero ∷ s) = some ((p, none), s)
read_condition (p ∷ suc zero ∷ s) = some ((p, some success), s)
read_condition (p ∷ suc (suc n) ∷ s) = some ((p, some failure), s)

condition-Inverse : Inverse write_condition read_condition
condition-Inverse (p, none) s = refl
condition-Inverse (p, some success) s = refl
condition-Inverse (p, some failure) s = refl

conditions-Inverse : Inverse (write_list write_condition) (read_list read_condition)
conditions-Inverse bs s = read_many-write_many write_condition read_condition condition-Inverse bs s

abbrev write_message : Writer PipeMessage
write_message begin_read s = 0 ∷ s
write_message (payload bytes n) s = 1 ∷ n ∷ write_bytes bytes s
write_message (read n) s = 2 ∷ n ∷ s
write_message (closed n) s = 3 ∷ n ∷ s

abbrev read_message : Reader PipeMessage
read_message [] = none
read_message (zero ∷ s) = some (begin_read, s)
read_message (suc k ∷ []) = none
read_message (suc zero ∷ n ∷ s) = then_read (read_bytes s) (λ bytes. yields (payload bytes n))
read_message (suc (suc zero) ∷ n ∷ s) = some (read n, s)
read_message (suc (suc (suc k)) ∷ n ∷ s) = some (closed n, s)

message-Inverse : Inverse write_message read_message
message-Inverse begin_read s = refl
message-Inverse (payload bytes n) s = rw (bytes-Inverse bytes s) refl
message-Inverse (read n) s = refl
message-Inverse (closed n) s = refl

-- the fields of a message: its number is in front of them
abbrev write_request : Writer Request
write_request q s = elim q.message [
  | begin_command bs p c ↦
      0
      ∷ q.remote_id
      ∷ p.id
      ∷ p.stdin
      ∷ p.stdout
      ∷ p.stderr
      ∷ write_list write_condition bs (write_command c s)
  | cancel_command id ↦ 1 ∷ q.remote_id ∷ id ∷ s
  | begin_remote id c ↦ 2 ∷ q.remote_id ∷ id ∷ write_command c s
  | RemoteRequest.open_output_file id path ↦ 3 ∷ q.remote_id ∷ id ∷ write_bytes path s
  | RemoteRequest.open_input_file id path ↦ 4 ∷ q.remote_id ∷ id ∷ write_bytes path s
  | end_remote id ↦ 5 ∷ q.remote_id ∷ id ∷ s
  | list_directory id path ↦ 6 ∷ q.remote_id ∷ id ∷ write_bytes path s
  | RemoteRequest.finish_edit id text ↦ 7 ∷ q.remote_id ∷ id ∷ write_bytes text s
  | RemoteRequest.pipe e ↦ 8 ∷ q.remote_id ∷ e.id ∷ write_message e.msg s
]

abbrev request_to : ℕ → RemoteRequest → Reader Request
request_to r m = yields (record { remote_id = r; message = m })

abbrev read_tagged : ℕ → ℕ → ℕ → Reader Request
read_tagged zero r id (i ∷ o ∷ e ∷ s) = then_read (read_list read_condition s) (λ bs s₁.
    then_read (read_command s₁) (λ c.
      request_to r (begin_command bs (record { id = id; stdin = i; stdout = o; stderr = e }) c)))
read_tagged zero r id s = none
read_tagged (suc zero) r id s = request_to r (cancel_command id) s
read_tagged (suc (suc zero)) r id s =
    then_read (read_command s) (λ c. request_to r (begin_remote id c))
read_tagged (suc (suc (suc zero))) r id s =
    then_read (read_bytes s) (λ path. request_to r (RemoteRequest.open_output_file id path))
read_tagged (suc (suc (suc (suc zero)))) r id s =
    then_read (read_bytes s) (λ path. request_to r (RemoteRequest.open_input_file id path))
read_tagged (suc (suc (suc (suc (suc zero))))) r id s = request_to r (end_remote id) s
read_tagged (suc (suc (suc (suc (suc (suc zero)))))) r id s =
    then_read (read_bytes s) (λ path. request_to r (list_directory id path))
read_tagged (suc (suc (suc (suc (suc (suc (suc zero))))))) r id s =
    then_read (read_bytes s) (λ text. request_to r (RemoteRequest.finish_edit id text))
read_tagged _ r id s =
    then_read (read_message s)
      (λ m. request_to r (RemoteRequest.pipe (record { id = id; msg = m })))

abbrev read_request_line : List ℕ → Option Request
read_request_line (tag ∷ r ∷ id ∷ s) = elim (read_tagged tag r id s) [
  | some x ↦ some x.0
  | none ↦ none
]
read_request_line _ = none

request_inverse_at :
    (r : ℕ) (m : RemoteRequest) (s : List ℕ)
    → read_request_line (write_request (record { remote_id = r; message = m }) s)
      ≡ some (record { remote_id = r; message = m })
request_inverse_at r (begin_command bs p c) s =
    rw (conditions-Inverse bs (write_command c s), read_request_line) rw (command-Inverse c s) refl
request_inverse_at r (cancel_command id) s = refl
request_inverse_at r (begin_remote id c) s = rw (command-Inverse c s, read_request_line) refl
request_inverse_at r (RemoteRequest.open_output_file id path) s =
    rw (bytes-Inverse path s, read_request_line) refl
request_inverse_at r (RemoteRequest.open_input_file id path) s =
    rw (bytes-Inverse path s, read_request_line) refl
request_inverse_at r (end_remote id) s = refl
request_inverse_at r (list_directory id path) s = rw (bytes-Inverse path s, read_request_line) refl
request_inverse_at r (RemoteRequest.finish_edit id text) s =
    rw (bytes-Inverse text s, read_request_line) refl
request_inverse_at r (RemoteRequest.pipe e) s = rw (message-Inverse e.msg s, read_request_line) refl

abbrev write_response : Writer Response
write_response q s = elim q.message [
  | remote_ready i ↦
      0
      ∷ q.remote_id
      ∷ write_bytes i.hostname (write_bytes i.username (write_bytes i.working_dir s))
  | command_done id n ↦ 1 ∷ q.remote_id ∷ id ∷ n ∷ s
  | directory_listing id items ↦ 2 ∷ q.remote_id ∷ id ∷ write_list write_bytes items s
  | edit_request c e name text ↦ 3 ∷ q.remote_id ∷ c ∷ e ∷ write_bytes name (write_bytes text s)
  | RemoteResponse.pipe e ↦ 4 ∷ q.remote_id ∷ e.id ∷ write_message e.msg s
]

abbrev response_to : ℕ → RemoteResponse → Reader Response
response_to r m = yields (record { remote_id = r; message = m })

abbrev read_response_tagged : ℕ → ℕ → Reader Response
read_response_tagged zero r s = then_read (read_bytes s) (λ h s₁. then_read (read_bytes s₁) (λ u s₂.
    then_read (read_bytes s₂)
      (λ w. response_to r (remote_ready (record { hostname = h; username = u; working_dir = w })))))
read_response_tagged (suc zero) r (id ∷ n ∷ s) = response_to r (command_done id n) s
read_response_tagged (suc (suc zero)) r (id ∷ s) =
    then_read (read_list read_bytes s) (λ items. response_to r (directory_listing id items))
read_response_tagged (suc (suc (suc zero))) r (c ∷ e ∷ s) =
    then_read (read_bytes s)
      (λ name s₁. then_read (read_bytes s₁) (λ text. response_to r (edit_request c e name text)))
read_response_tagged (suc (suc (suc (suc zero)))) r (id ∷ s) =
    then_read (read_message s)
      (λ m. response_to r (RemoteResponse.pipe (record { id = id; msg = m })))
read_response_tagged _ r s = none

abbrev read_response_line : List ℕ → Option Response
read_response_line (tag ∷ r ∷ s) = elim (read_response_tagged tag r s) [
  | some x ↦ some x.0
  | none ↦ none
]
read_response_line _ = none

response_inverse_at :
    (r : ℕ) (m : RemoteResponse) (s : List ℕ)
    → read_response_line (write_response (record { remote_id = r; message = m }) s)
      ≡ some (record { remote_id = r; message = m })
response_inverse_at r (remote_ready i) s =
    rw
      (
        bytes-Inverse i.hostname (write_bytes i.username (write_bytes i.working_dir s)),
        read_response_line,
      )
      rw (bytes-Inverse i.username (write_bytes i.working_dir s)) rw (bytes-Inverse i.working_dir s)
      refl
response_inverse_at r (command_done id n) s = refl
response_inverse_at r (directory_listing id items) s =
    rw (bytes_list-Inverse items s, read_response_line) refl
response_inverse_at r (edit_request c e name text) s =
    rw (bytes-Inverse name (write_bytes text s), read_response_line) rw (bytes-Inverse text s) refl
response_inverse_at r (RemoteResponse.pipe e) s =
    rw (message-Inverse e.msg s, read_response_line) refl

-- a line without its newline
drop_last : List ℕ → List ℕ
drop_last [] = []
drop_last (x ∷ []) = []
drop_last (x ∷ y ∷ s) = x ∷ drop_last (y ∷ s)

drop_last-append : (s : List ℕ) (n : ℕ) → drop_last (s ++ n ∷ []) ≡ s
unfolding drop_last
drop_last-append [] n = refl
drop_last-append (x ∷ []) n = refl
drop_last-append (x ∷ y ∷ s) n = ap (λ t. x ∷ t) (drop_last-append (y ∷ s) n)

pub codec : Json
codec = record {
  print_request = λ q. write_request q [];
  read_request = λ line. read_request_line (drop_last line);
  print_response = λ q. write_response q [];
  read_response = λ line. read_response_line (drop_last line);
}

pub codec-ReadsBack : ReadsBack codec
unfolding codec
codec-ReadsBack = record {
  reads_request = λ q.
      ap read_request_line (drop_last-append (write_request q []) 10)
      ∙ request_inverse_at q.remote_id q.message [];
  reads_response = λ q.
      ap read_response_line (drop_last-append (write_response q []) 10)
      ∙ response_inverse_at q.remote_id q.message [];
}
