-- ===== src/Lib.antt =====
-- mocf is a console music player: a curses interface, a player thread that decodes files, and an output
-- thread that feeds a sound device. This library models the parts whose correctness is a matter of state
-- and not of system calls, and proves what they promise.
--
-- The parts and their files:
--
-- Base: lists with native indices, texts as lists of bytes (`std::string`), integers, and `Option` as
-- the result of code with assertions: `none` is an assertion that fails or a read past an array.
--
-- Fifo (src/utils/fifo_buf.cpp): the byte ring between the player and the output thread. `Fifo` has the
-- fields `size_`, `pos_`, `fill_` and `buf_`; `put`, `peek`, `get`, `space` and `clear` are the methods.
-- The three loops run on fuel, one round more than there are bytes to move, and every round moves at
-- least one; the theorems state that the fuel is enough. Sums of `int` are plain numbers here, and
-- Fifo.Queue.copies_in_bounds bounds them. Fifo.Contents says which bytes a ring holds, Fifo.Put and
-- Fifo.Get follow the loops, and Fifo.Queue compares the class with a bounded queue.
--
-- SearchTree (the `std::map` members of src/library/playlist.h): entries in the order of a comparator,
-- which is a parameter (`Collation`): `strcoll` belongs to the C library and its strict weak order is
-- what `std::map` asks of it. SearchTree.Bytewise is the comparator of the C locale.
--
-- Playlist (src/library/playlist.cpp): Playlist.Data has the records of src/library/playlist.h,
-- Playlist.Search the functions that look for items, Playlist.Edit those that add, change and delete
-- them, Playlist.Order those that move them. An index -1 is `none`. The functions of
-- src/library/files.cpp that ask the file system are a parameter (`Host`), and the values of `rand()` are
-- an argument of `plist_shuffle`. `deleted` is a Boolean, and the two bits of `filled` are two fields.
-- The sums of times are unbounded integers. Playlist.Tally says what the counters stand for,
-- Playlist.Counters that they are kept, Playlist.Index that the search tree finds the live items,
-- Playlist.Join and Playlist.Cat both together with `plist_cat`, and Playlist.Walk where `plist_next`, `plist_prev` and
-- `plist_last` stop. Playlist.Moves, Playlist.Reindex and Playlist.First are about shuffling,
-- Playlist.Common is about `plist_remove_common_items`, Playlist.Names about `plist_find_del_fname`,
-- Playlist.Live about the names of live items, Playlist.Without about a list without a file, and
-- Playlist.SwapFiles about `plist_swap_files`.
--
-- Playlist.Title (the same file): title formats. `check_zero` that throws is `none`, the exception
-- `BadTitleFormat` is `malformed`. A round of the loop of `do_title_expn` takes at least one byte of the
-- format, and a nested call works on a part of what is left, so that a round of fuel for each byte is
-- enough. The warning that is given once is left out.
--
-- Menu (src/ui/curses/menu.cpp): the list of a panel. Menu.Data has the records of
-- src/ui/curses/menu.h, Menu.Cursor the requests and the window, Menu.Items what adds, deletes, swaps and
-- filters, Menu.Settings the fields. `int` is an unbounded integer, and what is never negative a plain
-- number. A pointer to an item is an address, a number that an item has for its life and that is not
-- given out again; `item_at` follows it, and gives `none` where it dangles. `none` is also an assertion
-- that fails or an index out of range. `strcasestr` belongs to the C library and is a parameter of the
-- filter. Drawing (`menu_draw`, `draw_item`, `menu_set_cursor`) is left out: it only writes to curses.
-- Menu.Window and Menu.Visible follow the cursor and the window, Menu.Pointers, Menu.Deletion,
-- Menu.Swapping and Menu.Swaps the numbers and the pointers, Menu.Closing the cursor after a deletion, and
-- Menu.Copies and Menu.Filter the filtered menu.
--
-- OutBuf (src/audio/outputs/out_buf.cpp): the ring with the thread that reads it. The code between taking
-- and giving back the mutex is one step, and the steps of the threads follow each other in any order
-- (OutBuf.Steps); the long parts of the reading thread are cut once more, in front of its wait and behind
-- it, which only allows more orders. Condition variables are left out: a thread that waits may go on at
-- any time. `put` is its round behind the wait, repeated while bytes are left; one call of it runs at a
-- time. The sound device is a parameter (`Device`), its answers are arguments of the steps, and what
-- `audio_send_pcm` takes is recorded. `proceed` is `none` where a frame size of 0 divides. The clock (`time`, a `float`) is left out, and a tenth of the byte
-- rate is a whole number. OutBuf.Pipeline and OutBuf.Flow follow the bytes from `put` to the device,
-- and OutBuf.Stopped is about `stop`.
--
-- Paths (src/library/files.cpp): `resolve_path`. The buffer is the string in it and the number of characters
-- written; `fatal` ends the program and is an outcome. The loop runs on fuel, a round for each byte of the
-- joined path, and every round takes at least one.
--
-- Audio (src/audio/audio.cpp): playback control. Audio.Data has the variables of the file as one record,
-- Audio.Go `go_to_another_file`, Audio.Control the playing thread and what starts, stops and directs it,
-- Audio.Lists the operations on playlist, shuffled list and queue. The code between taking and giving back
-- the mutexes is one step; `play_thread_func` is cut at the test of its loop, behind the reading of the
-- file's name, and before and behind `player`, and Audio.Runs lets these steps and the calls of the
-- interface follow each other in any order. `audio_stop` waits for the thread: `join` gives it five steps,
-- which Audio.Ending shows to be enough. The options are an argument of every step, so that they may
-- change between steps, and the random numbers are one function of the shuffle and the index. Calls of
-- other parts (`player`, `player_stop`, `state_change`, `server_queue_pop`) are recorded. Audio.Sound has the
-- invariant of the lists, Audio.Changes and Audio.Timed that the list operations keep it, Audio.Choosing,
-- Audio.Ready, Audio.Going, Audio.Taken and Audio.Another that `go_to_another_file` does, Audio.Thread,
-- Audio.Ending, Audio.Stopping and Audio.Playing that the thread, `audio_stop` and `audio_play` do.
-- Audio.InOrder and Audio.AllPlayed follow the thread through a whole playlist, and Audio.Spinning round a
-- loop that does not end.
--
-- Audio.Format, Audio.EveryFormat, Audio.BestFormat, Audio.Device, Audio.OutputRate and
-- Audio.DeviceState (src/audio/audio.h, src/audio/audio.cpp): sample formats and the device. A sample format has one format bit, as audio.h asks;
-- a mask of formats is the test of its bits. Rates and channels are plain numbers, and
-- `none` is an assertion that fails or a rate of 0 that divides. What the driver does on
-- `open` and whether a conversion can be made are parameters (`Hardware`). The calls that only pass on to
-- driver, mixer and player, the choice of a driver, `sfmt_str` and MaskOutputFormats are left out.
--
-- Convert (src/audio/conversion/audio_conversion.cpp): sample conversion, on a little-endian host. A buffer is a
-- list of bytes, and a loop over samples takes as many bytes off it as a sample has (Convert.Samples);
-- Convert.Process is `process` as one function with the format beside the bytes, and `none` where the code
-- aborts or runs past a buffer. Rates are equal: resampling is libsamplerate. What floating-point arithmetic makes of one sample
-- is a parameter (`Floats`). The downmix of six channels is left out and gives `none`. Convert.Formats and
-- Convert.Signs follow the format, Convert.Bytes, Convert.Sizes and Convert.Pipeline the number of bytes, Convert.Change and
-- Convert.Whole both to the end, and Convert.Twice is about what undoes itself.
--
-- Softmixer (src/audio/processing/softmixer.cpp): the volume in software. Softmixer.Mix is
-- `softmixer_process_buffer` on the bytes of the integer formats; the template arguments are a record
-- (`SampleType`), samples are integers, and what is stored in an `AccT` wraps at its width. The float format,
-- `softmixer_set_value`, which computes the gain by `exp`, and the configuration file are left out.
-- Softmixer.Exact and Softmixer.Buffers compare the accumulator with integers without bounds, and
-- Softmixer.Wraps is about the 8-bit formats, where it is too narrow.
pub mod Audio
pub mod Base
pub mod Convert
pub mod Fifo
pub mod SearchTree
pub mod Softmixer
pub mod Playlist
pub mod Menu
pub mod OutBuf
pub mod Paths
