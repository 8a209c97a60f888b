-- ===== src/Adapters/Gemini/Laws.antt =====
-- What the adapter of Gemini sends of a conversation.
use cortex_gateway.Prelude.{
  ◌≡◌, refl, sym, ap, ◌∙◌, ◌⊎◌, inl, inr, Bool, true, false, ◌||◌, Option, none, some, List, [],
  ◌∷◌, ◌++◌, arith, if◌then◌else◌, any, all, Text,
}
use cortex_gateway.Chat.{Role, system, user, assistant, ChatMessage, ChatCompletionRequest}
use cortex_gateway.Adapters.Gemini.{
  user_turn, model_turn, Turn, Conversation, add_message, collect, no_conversation, drop_last,
  instruction_given, Session, session_of, generation_config_of,
}

-- The turns of a conversation: what its users and assistants say, in order.
unfoldable pub turn_of : Role → Text → List Turn
turn_of system t = []
turn_of user t = (user_turn, t) ∷ []
turn_of assistant t = (model_turn, t) ∷ []

unfoldable pub turns : List ChatMessage → List Turn
unfolding turn_of
turns [] = []
turns (m ∷ rest) = turn_of m.role m.content ++ turns rest

-- The messages that are not of a user, and those of the system.
abbrev pub is_of_user : ChatMessage → Bool
is_of_user m = elim m.role [ user ↦ true | _ ↦ false ]

abbrev pub is_of_system : ChatMessage → Bool
is_of_system m = elim m.role [ system ↦ true | _ ↦ false ]

append_assoc : {A : Type 0} (xs ys zs : List A) → (xs ++ ys) ++ zs ≡ xs ++ (ys ++ zs)
append_assoc [] ys zs = refl
append_assoc (x ∷ xs) ys zs = ap (λ v. x ∷ v) (append_assoc xs ys zs)

append-nil : {A : Type 0} (xs : List A) → xs ++ [] ≡ xs
append-nil [] = refl
append-nil (x ∷ xs) = ap (λ v. x ∷ v) (append-nil xs)

drop_last-append : {A : Type 0} (xs : List A) (a : A) → drop_last (xs ++ a ∷ []) ≡ xs
unfolding drop_last
drop_last-append [] a = refl
drop_last-append (x ∷ []) a = refl
drop_last-append (x ∷ y ∷ xs) a = ap (λ v. x ∷ v) (drop_last-append (y ∷ xs) a)

turns-append : (xs ys : List ChatMessage) → turns (xs ++ ys) ≡ turns xs ++ turns ys
unfolding turns
turns-append [] ys = refl
turns-append (m ∷ xs) ys =
    ap (λ v. turn_of m.role m.content ++ v) (turns-append xs ys)
    ∙ sym (append_assoc (turn_of m.role m.content) (turns xs) (turns ys))

role-cases : (r : Role) → (r ≡ system) ⊎ ((r ≡ user) ⊎ (r ≡ assistant))
role-cases system = inl refl
role-cases user = inr (inl refl)
role-cases assistant = inr (inr refl)

collect-append :
    (c : Conversation) (xs ys : List ChatMessage) → collect c (xs ++ ys) ≡ collect (collect c xs) ys
unfolding collect
collect-append c [] ys = refl
collect-append c (m ∷ xs) ys = collect-append (add_message c m) xs ys

add_message-history :
    (c : Conversation) (m : ChatMessage)
    → (add_message c m).history ≡ c.history ++ turn_of m.role m.content
unfolding add_message turn_of
add_message-history c m = elim (role-cases m.role) [
  | inl e ↦ rw (e, add_message) (sym (append-nil c.history))
  | inr (inl e) ↦ rw (e, add_message) refl
  | inr (inr e) ↦ rw (e, add_message) refl
]

-- The history of what is collected is that of before with the turns of the messages.
collect-history :
    (c : Conversation) (ms : List ChatMessage) → (collect c ms).history ≡ c.history ++ turns ms
unfolding collect turns
collect-history c [] = sym (append-nil c.history)
collect-history c (m ∷ ms) =
    collect-history (add_message c m) ms
    ∙ (ap (λ v. v ++ turns ms) (add_message-history c m)
        ∙ append_assoc c.history (turn_of m.role m.content) (turns ms))

or-false : (a b : Bool) → (a || b) ≡ false → (a ≡ false) × (b ≡ false)
or-false false b e = (refl, e)
or-false true b e = ground arith

add_message-last_user :
    (c : Conversation) (m : ChatMessage)
    → is_of_user m ≡ false
    → (add_message c m).last_user_content ≡ c.last_user_content
unfolding add_message
add_message-last_user c m u = elim (role-cases m.role) [
  | inl e ↦ rw (e, add_message) refl
  | inr (inl e) ↦ absurd (ground (arith, rw e at u))
  | inr (inr e) ↦ rw (e, add_message) refl
]

-- Without a message of a user, the last content of a user stays.
collect-last_user :
    (c : Conversation) (ms : List ChatMessage)
    → any is_of_user ms ≡ false
    → (collect c ms).last_user_content ≡ c.last_user_content
unfolding collect
collect-last_user c [] h = refl
collect-last_user c (m ∷ ms) h =
    collect-last_user (add_message c m) ms (or-false _ _ h).1
    ∙ add_message-last_user c m (or-false _ _ h).0

-- The content of the last message of the system, the default without one.
unfoldable pub last_system : Option Text → List ChatMessage → Option Text
last_system default [] = default
last_system default (m ∷ rest) =
    last_system (if is_of_system m then some m.content else default) rest

add_message-system :
    (c : Conversation) (m : ChatMessage)
    → (add_message c m).system_instruction
      ≡ (if is_of_system m then some m.content else c.system_instruction)
unfolding add_message
add_message-system c m = elim (role-cases m.role) [
  | inl e ↦ rw (e, add_message) refl
  | inr (inl e) ↦ rw (e, add_message) refl
  | inr (inr e) ↦ rw (e, add_message) refl
]

collect-system :
    (c : Conversation) (ms : List ChatMessage)
    → (collect c ms).system_instruction ≡ last_system c.system_instruction ms
unfolding collect last_system
collect-system c [] = refl
collect-system c (m ∷ ms) =
    collect-system (add_message c m) ms ∙ ap (λ v. last_system v ms) (add_message-system c m)

-- What is sent: the last content of a user, behind all turns but the last, whoever's that is.
abbrev pub IsSent : {F : Type 0} → ChatCompletionRequest F → Text → Type 0
IsSent {F} r content =
    (s : Session F) × (session_of r ≡ some s)
    × (s.history ≡ drop_last (turns r.messages))
    × (s.message ≡ content)
    × (s.system_instruction ≡ instruction_given (last_system none r.messages))

user-role : (m : ChatMessage) → is_of_user m ≡ true → m.role ≡ user
user-role m u = elim (role-cases m.role) [
  | inl e ↦ absurd (ground (arith, rw e at u))
  | inr (inl e) ↦ e
  | inr (inr e) ↦ absurd (ground (arith, rw e at u))
]

add_message-asked :
    (c : Conversation) (m : ChatMessage)
    → m.role ≡ user
    → (add_message c m).last_user_content ≡ some m.content
unfolding add_message
add_message-asked c m e = rw (e, add_message) refl

asked :
    (before after : List ChatMessage) (m : ChatMessage)
    → is_of_user m ≡ true
    → any is_of_user after ≡ false
    → (collect no_conversation (before ++ m ∷ after)).last_user_content ≡ some m.content
unfolding collect
asked before after m u h =
    let c = collect no_conversation before in
    ap (λ (x : Conversation). x.last_user_content)
      (collect-append no_conversation before (m ∷ after))
    ∙ (collect-last_user (add_message c m) after h ∙ add_message-asked c m (user-role m u))

session_of-last :
    {F : Type 0} (r : ChatCompletionRequest F) (before after : List ChatMessage) (m : ChatMessage)
    → r.messages ≡ before ++ m ∷ after
    → is_of_user m ≡ true
    → any is_of_user after ≡ false
    → IsSent r m.content
unfolding session_of no_conversation
session_of-last r before after m e u h =
    let q = ap (λ v. (collect no_conversation v).last_user_content) e ∙ asked before after m u h in
    (
      record {
        model_name = r.model;
        system_instruction =
            instruction_given (collect no_conversation r.messages).system_instruction;
        generation_config = generation_config_of r;
        history = drop_last (collect no_conversation r.messages).history;
        message = m.content;
      },
      rw (q, session_of) refl,
      ap drop_last (collect-history no_conversation r.messages),
      refl,
      ap instruction_given (collect-system no_conversation r.messages),
    )

of_system :
    (ms : List ChatMessage)
    → all is_of_system ms ≡ true
    → (turns ms ≡ []) × (any is_of_user ms ≡ false)
unfolding turns turn_of
of_system [] h = (refl, refl)
of_system (m ∷ ms) h = elim (role-cases m.role) [
  | inl e ↦ rw (e, turns, turn_of) (of_system ms (rw e at h))
  | inr (inl e) ↦ absurd (ground (arith, rw e at h))
  | inr (inr e) ↦ absurd (ground (arith, rw e at h))
]

-- A conversation whose last turn is the user's is sent whole: the history and the message that is
-- sent are its turns in order, each once. The instruction is the last message of the system, unless
-- it is empty.
pub session_of-turns :
    {F : Type 0} (r : ChatCompletionRequest F) (before after : List ChatMessage) (m : ChatMessage)
    → r.messages ≡ before ++ m ∷ after
    → is_of_user m ≡ true
    → all is_of_system after ≡ true
    → (s : Session F) × (session_of r ≡ some s)
      × (s.history ++ (user_turn, s.message) ∷ [] ≡ turns r.messages)
      × (s.system_instruction ≡ instruction_given (last_system none r.messages))
unfolding turns
session_of-turns r before after m e u h =
    let (none_after, no_user) = of_system after h in
    let (s, same, history, message, instruction) = session_of-last r before after m e u no_user in
    let last_turn : turns (m ∷ after) ≡ (user_turn, m.content) ∷ [] =
      rw (user-role m u, none_after, turns, turn_of) refl in
    let whole : turns r.messages ≡ turns before ++ (user_turn, m.content) ∷ [] =
      ap turns e ∙ (turns-append before (m ∷ after) ∙ ap (λ v. turns before ++ v) last_turn) in
    (
      s,
      same,
      ap (λ v. v ++ (user_turn, s.message) ∷ [])
            (history
              ∙ (ap drop_last whole ∙ drop_last-append (turns before) (user_turn, m.content)))
          ∙ (ap (λ v. turns before ++ (user_turn, v) ∷ []) message ∙ sym whole),
      instruction,
    )
