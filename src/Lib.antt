-- ===== src/Lib.antt =====
-- A model of the core of php-handlebars: a PHP extension, written in C, that compiles and renders
-- Handlebars templates with libhandlebars.
--
-- The program's parts and how they interact. `Handlebars\VM` (src/vm.c) compiles a template with the
-- options it is given, looks a compiled module up in the template cache or loads it from a binary
-- string, and runs it. While it runs, libhandlebars asks PHP values through the handlers of
-- src/value.c, calls PHP helpers, and gives them a `Handlebars\Options` object (src/options.c), whose
-- methods run the block's programs. `Handlebars\Utils` (src/utils.c) has the functions that
-- templates compiled to PHP need: lookup, stringification, escaping, frames and context paths.
-- `Handlebars\Tokenizer`, `Parser` and `Compiler` (src/tokenizer.c, src/parser.c, src/compiler.c) show
-- PHP what libhandlebars makes of a template on the way: tokens, a syntax tree, a program of opcodes.
-- The module's start (src/php_handlebars.c) builds the cache that the VM then uses.
--
-- Files, and what they model (paths from the repository's root):
--   Base, Base/*       shared names, Boolean tests, lists by native numbers, texts as lists of bytes
--   Zend, Zend/*       zvals, PHP arrays as ordered maps, exceptions and aborts as an outcome, and the
--                      record `Engine` of what the extension asks of the PHP engine
--   Libhandlebars      the record `Library` of what it calls in libhandlebars, and the macros
--                      php_handlebars_try and php_handlebars_throw of php_handlebars.h
--   Utils/*            src/utils.c: appendContextPath, createFrame, nameLookup, isIntArray, isCallable,
--                      expression, escapeExpression, escapeExpressionCompat, indent
--   Value, Value/*     src/value.c: handlebars_value_from_zval, handlebars_value_to_zval, and the
--                      handlers type, map_find, array_find, count, iterator_init with the three
--                      iterators, and call with its decision on the options; Value/Intern has the
--                      memory and the references behind a PHP value that is kept
--   Vm/*               src/vm.c: process_options_zval, the two arrays of known helpers, compile and
--                      VM::compile, hash_pack, hash_bin2hex, verify_and_load_module, render;
--                      Vm/Render/Session has sequences of calls with one cache, Vm/Render/Files
--                      those of renderFile between changes of the files, and Vm/Render/Strings the
--                      references to strings
--   Vm/Object, Vm/Log  the VM's object with its stored helpers and partials, and its log function
--   Implementation     src/impl.c: the properties of BaseImpl, from which the VM inherits
--   SafeString         src/safe_string.c
--   Compiler/*         src/compiler.c, src/opcode.c, src/program.c: programs as PHP objects
--   Parser/*           src/parser.c: syntax trees as PHP arrays
--   Tokenizer/*        src/tokenizer.c and src/token.c
--   Methods/*          the declared return types of those three classes' static methods
--   Module/*           src/php_handlebars.c: globals, INI entries, constants, the start of the cache, its
--                      reset and its table; Module/Startup is PHP_MINIT_FUNCTION(handlebars) as a whole
--   Classes/*          src/exceptions.c, src/registry.c, and of every file the table of methods, the
--                      argument information, what a body parses, and the registration of the class
--   Options, Options/* src/options.c: the object and its constructor and destructors, the property
--                      handlers, __construct, fn and inverse, ArrayAccess, lookupProperty
--   Tests/*            the main theorems at concrete inputs
-- The children of a component's module hold its theorems, and are named for them.
--
-- State is passed explicitly: an iterator with the state of the engine, an options object with the
-- engine's properties, the flags that a value keeps. `render` returns its result with the calls that it
-- made on the cache, in their order, since what matters is that what is found is released. What ends
-- with longjmp in the source is a result `raises`, an exception is `throw`, and where the source aborts
-- or reads through a null pointer the outcome is `aborted`.
--
-- Integers: native numbers, with the wrap-around of `zend_ulong` and `size_t` written out; a
-- `zend_long` is a `ℤ` of Zend. Hashes are 64 bits. Theorems that need a bound on a length state it.
-- Loops over arrays and strings are structural. There is fuel in three places. The loop in
-- Value/Iterator/Loop takes one round for each entry of the array and one more for the end; the loop
-- over an object in Value/Iterator/Ends one for each element left and one more. The setup of the cache
-- in Module takes one round for each return of `setjmp`; two are always enough.
--
-- Objects that the extension makes for the caller are trees of Zend/Tree, with the object's class and
-- properties in place of a handle.
--
-- Parameters, for code that is not in the repository: `Engine` (object handlers, conversions,
-- functions of the standard extensions), `Library` (parser, compiler, vm and module format of
-- libhandlebars), `World` (cache, file system, configuration), `ObjectIterator`, `StdHandlers`,
-- `Callees`, `Calls`, `Opcodes`, `Ast`, `Lexer`, `Backends`, `Implementation.Classes`, `Builtins`,
-- `Configuration`. What theorems assume of them is named: AsksForPartials, EscapesMarkup, KeepsNames,
-- IsFresh, SerializesFresh, IsStandard, IsFinite, IsNulling, IsPhp. What a cache does between two
-- calls is the relation Follows. The vm is handed the cache as well: what it adds there is apart from
-- the calls that `render` makes itself, and what it finds and releases is libhandlebars's.
-- What PHP does with a class is modelled as far as its registration describes it, in Classes.
--
-- Not modelled: an error that an iteration over the helpers raises in php_handlebars_fetch_known_helpers;
-- memory and reference counts, but for those of Value/Intern and Vm/Render/Strings; the PHP 7 branches;
-- the class constants of Handlebars\\Compiler, whose values are libhandlebars's; the constant rows of
-- the info page; a default branch of a switch over an enumeration of libhandlebars that has no further
-- value; assertions of `assert`, which are taken as not compiled in. A jump to a stack
-- frame that is gone is `aborted`.
pub mod Base
pub mod Zend
pub mod Utils
pub mod Libhandlebars
pub mod Value
pub mod Vm
pub mod Options
pub mod Compiler
pub mod Tokenizer
pub mod Parser
pub mod Implementation
pub mod Module
pub mod SafeString
pub mod Methods
pub mod Classes
pub mod Tests
