-- ===== src/Vm/Log/Messages.antt =====
-- What `php_handlebars_log` of src/vm.c logs.
use php_handlebars.Base.{
  ◌≡◌, refl, sym, ap, ◌∙◌, Option, List, [], ◌∷◌, ◌++◌, Text, lit, append-nil, append_assoc,
}
use php_handlebars.Zend.{Zval, object}
use php_handlebars.Value.{Value}
use php_handlebars.Vm.Log.{Logged, call_logger, error_log, append_arguments, log}

abbrev pub message_of : Logged → Text
message_of (call_logger logger level message) = message
message_of (error_log message) = message

-- The dumps of the arguments, a blank after each.
abbrev pub dumped : (Value → Text) → List Value → Text
dumped dump [] = []
dumped dump (arg ∷ argv) = (dump arg ++ lit " ") ++ dumped dump argv

append_arguments-dumped :
    (dump : Value → Text) (argv : List Value) (message : Text)
    → append_arguments dump argv message ≡ message ++ dumped dump argv
unfolding append_arguments
append_arguments-dumped dump [] message = sym (append-nil message)
append_arguments-dumped dump (arg ∷ argv) message =
    append_arguments-dumped dump argv _
    ∙ append_assoc message (dump arg ++ lit " ") (dumped dump argv)

dumped-append :
    (dump : Value → Text) (argv rest : List Value)
    → dumped dump (argv ++ rest) ≡ dumped dump argv ++ dumped dump rest
dumped-append dump [] rest = refl
dumped-append dump (arg ∷ argv) rest =
    ap (λ t. (dump arg ++ lit " ") ++ t) (dumped-append dump argv rest)
    ∙ sym (append_assoc (dump arg ++ lit " ") (dumped dump argv) (dumped dump rest))

module _ (dump : Value → Text) (map_str_find : Value → Text → Option Value) where
  log-dumped :
      (logger : Zval) (argv : List Value) (h : Option Value)
      → message_of (log dump map_str_find logger argv h) ≡ dumped dump argv
  unfolding log
  log-dumped (object logger) argv h = append_arguments-dumped dump argv []
  log-dumped _ argv h = append_arguments-dumped dump argv []

  -- Whatever the logger is, the message of several arguments is the messages of the first of them and
  -- of the rest, one after the other, and no arguments give the empty message.
  pub log-append :
      (logger : Zval) (argv rest : List Value) (h : Option Value)
      → (message_of (log dump map_str_find logger (argv ++ rest) h)
          ≡ message_of (log dump map_str_find logger argv h)
            ++ message_of (log dump map_str_find logger rest h))
        × (message_of (log dump map_str_find logger [] h) ≡ [])
  log-append logger argv rest h =
      rw
        (
          log-dumped logger (argv ++ rest) h,
          log-dumped logger argv h,
          log-dumped logger rest h,
          log-dumped logger [] h,
        )
        (dumped-append dump argv rest, refl)
